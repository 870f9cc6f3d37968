-- ===== src/AuditLog/Routes.antt =====
-- The table ROUTE_LABELS of frontend/src/components/settings/AuditLogTab.tsx.
use noant.Base.{Text, codes, List, [], ◌∷◌}

pub record Route : Type 0 where
  pub path : Text
  pub label : Text

abbrev route : Text → Text → Route
route path label = record { path = path; label = label }

pub route_labels : List Route
route_labels =
    route (codes "/api/v1/chats/direct-chat") (codes "Started a new conversation")
    ∷ route (codes "/api/v1/chats/clear") (codes "Cleared chat history")
    ∷ route (codes "/api/v1/chats/conversations/:id/stream") (codes "Sent a message")
    ∷ route (codes "/api/v1/integrations/connect") (codes "Connected an integration")
    ∷ route (codes "/api/v1/integrations/disconnect/:channel") (codes "Disconnected an integration")
    ∷ route (codes "/api/v1/training/unknown-questions/:id/train")
        (codes "Trained an unknown question")
    ∷ route (codes "/api/v1/training/unknown-questions/:id/ignore")
        (codes "Ignored an unknown question")
    ∷ route (codes "/api/v1/training/unknown-questions/:id/dismiss")
        (codes "Dismissed an unknown question")
    ∷ route (codes "/api/v1/training/unknown-questions/batch-ignore")
        (codes "Ignored unknown questions in bulk")
    ∷ route (codes "/api/v1/training/unknown-questions/batch-train")
        (codes "Trained unknown questions in bulk")
    ∷ route (codes "/api/v1/training/categories") (codes "Created a new category")
    ∷ route (codes "/api/v1/training/categories/:id") (codes "Updated a category")
    ∷ route (codes "/api/v1/qa-pairs") (codes "Created a new Q&A pair")
    ∷ route (codes "/api/v1/qa-pairs/:id") (codes "Updated a Q&A pair")
    ∷ route (codes "/api/v1/integrations/whatsapp/send-template") (codes "Sent a WhatsApp template")
    ∷ route (codes "/api/v1/campaigns") (codes "Created a campaign")
    ∷ route (codes "/api/v1/campaigns/:id/send") (codes "Sent a campaign")
    ∷ route (codes "/api/v1/campaigns/:id/pause") (codes "Paused a campaign")
    ∷ route (codes "/api/v1/campaigns/:id/resume") (codes "Resumed a campaign")
    ∷ route (codes "/api/v1/campaigns/:id/cancel") (codes "Canceled a campaign")
    ∷ route (codes "/api/v1/handoffs") (codes "Created a handoff")
    ∷ route (codes "/api/v1/handoffs/:id/accept") (codes "Accepted a handoff")
    ∷ route (codes "/api/v1/handoffs/:id/decline") (codes "Declined a handoff")
    ∷ route (codes "/api/v1/handoffs/:id/resolve") (codes "Resolved a handoff")
    ∷ route (codes "/api/v1/archive/folders") (codes "Created an archive folder")
    ∷ route (codes "/api/v1/settings/api-keys") (codes "Generated a new API key")
    ∷ route (codes "/api/v1/settings/api-keys/:id/revoke") (codes "Revoked an API key")
    ∷ route (codes "/api/v1/team/invite") (codes "Invited a team member")
    ∷ route (codes "/api/v1/team/:id/role") (codes "Updated a team member's role")
    ∷ route (codes "/api/v1/team/:id/remove") (codes "Removed a team member")
    ∷ route (codes "/api/v1/integrations/openwa/connect") (codes "Connected WhatsApp")
    ∷ route (codes "/api/v1/integrations/openwa/disconnect") (codes "Disconnected WhatsApp")
    ∷ route (codes "/api/v1/integrations/openwa/send") (codes "Sent a WhatsApp message")
    ∷ route (codes "/api/v1/integrations/openwa/send-media") (codes "Sent a WhatsApp media message")
    ∷ route (codes "/api/v1/integrations/openwa/send-bulk") (codes "Sent bulk WhatsApp messages")
    ∷ route (codes "/api/v1/integrations/openwa/sessions/:id/restart")
        (codes "Restarted a WhatsApp session")
    ∷ route (codes "/api/v1/settings/profile") (codes "Updated profile settings")
    ∷ route (codes "/api/v1/settings/password") (codes "Changed password")
    ∷ route (codes "/api/v1/settings/notifications") (codes "Updated notification preferences")
    ∷ route (codes "/api/v1/settings/2fa/enable") (codes "Enabled two-factor authentication")
    ∷ route (codes "/api/v1/settings/2fa/disable") (codes "Disabled two-factor authentication")
    ∷ route (codes "/api/v1/settings/delete-account") (codes "Deleted account")
    ∷ route (codes "/api/v1/settings/export-data") (codes "Exported account data")
    ∷ route (codes "/api/v1/settings/privacy") (codes "Updated privacy settings")
    ∷ route (codes "/api/v1/notifications/:id/read") (codes "Marked a notification as read")
    ∷ route (codes "/api/v1/notifications/read-all") (codes "Marked all notifications as read")
    ∷ route (codes "/api/v1/integrations/openwa/verify") (codes "Verified WhatsApp connection")
    ∷ route (codes "/api/v1/integrations/openwa/status") (codes "Checked WhatsApp status")
    ∷ route (codes "/api/v1/widget/config") (codes "Updated widget configuration")
    ∷ route (codes "/api/v1/notifications/widget") (codes "Viewed widget configuration")
    ∷ route (codes "/api/v1/archive/folders/:id") (codes "Updated an archive folder")
    ∷ route (codes "/api/v1/archive/conversations/:id/move")
        (codes "Moved a conversation to archive")
    ∷ route (codes "/api/v1/archive/conversations/:id/restore")
        (codes "Restored a conversation from archive")
    ∷ []
