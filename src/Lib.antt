-- ===== src/Lib.antt =====
-- The browser code of noant, a customer-support platform: the parts of its client, its chat widget
-- and its service worker that decide something.
--
-- The dashboard's pages call the hook `useAPI`, which calls `api` (lib/api.ts), which sends requests,
-- waits and retries, and lets one refresh of the session (lib/auth.ts) serve the requests that meet a
-- 401. Live messages come by the socket of WebSocketManager (lib/websocket.ts), answers of the AI as a
-- stream (api.streamPost). NetworkProvider watches the connection and the server, ModalProvider asks
-- before a change that cannot be undone. The widget, which customers of a shop see, and the service
-- worker stand alone.
--
-- Files:
--  Base: tests on numbers, lists, JavaScript strings as lists of code units.
--  Json: JavaScript values as JSON gives them, with truth, `||` and `?.`.
--  Endpoint: VITE_API_URL as the address of the API, the socket and the health check
--    (frontend/src/lib/api.ts, frontend/src/lib/websocket.ts, frontend/src/contexts/NetworkContext.tsx).
--  Socket: the class WebSocketManager (frontend/src/lib/websocket.ts). `step` is one call or one event
--    of the browser, Socket.Message and Socket.Handlers the delivery of a message.
--  Api.Stream: api.streamPost (frontend/src/lib/api.ts).
--  Api.Request: doRequest with refreshToken, clearAuth and logout (frontend/src/lib/api.ts,
--    frontend/src/lib/auth.ts), for one request at a time.
--  Api.Inflight: request, which shares the GET requests under way (frontend/src/lib/api.ts).
--  Api.Refresh: isRefreshing and refreshPromise (frontend/src/lib/api.ts), for any number of requests
--    at a time; a step is what runs between two awaits.
--  UseApi: execute of the hook (frontend/src/hooks/useAPI.ts); UseApi.Merge is mergeData, UseApi.Toasts is
--    dedupedToast, UseApi.Requests the requests built on execute, loadMore and retry among them.
--  Widget: the chat widget (frontend/public/widget.js); Widget.Address is getBaseUrl.
--  Network: NetworkProvider (frontend/src/contexts/NetworkContext.tsx).
--  Modal: ModalProvider and ConfirmModalRenderer (frontend/src/contexts/ModalContext.tsx).
--  Alerts: SidebarAlertsProvider (frontend/src/contexts/SidebarAlertsContext.tsx).
--  Palette: CommandPalette (frontend/src/components/ui/CommandPalette.tsx).
--  Worker: the service worker (frontend/public/sw.js).
--  Chats: the messages of ChatsPage with their effects; Chats.Events is what happens to them,
--    Chats.Conversations the list of conversations (frontend/src/app/(dashboard)/chats/page.tsx).
--  Teach: the handlers of TeachPage (frontend/src/app/(dashboard)/teach/page.tsx).
--  Inventory: the form of an item and the statistics; Inventory.Page is the state of the page
--    (frontend/src/app/(dashboard)/inventory/page.tsx).
--  Auth: the hook useAuth and the guards of the routes (frontend/src/hooks/useAuth.ts,
--    frontend/src/components/auth, frontend/src/App.tsx).
--  Onboarding: the page with its steps under its guard, Onboarding.Whatsapp the step that connects
--    WhatsApp (frontend/src/app/(dashboard)/onboarding/page.tsx).
--  Push: the hook usePushNotifications (frontend/src/hooks/usePushNotifications.ts).
--  Toasts: ToastProvider (frontend/src/components/ui/Toast.tsx).
--  Settings: the appearance and the password (frontend/src/app/(dashboard)/settings/page.tsx), with the
--    theme of frontend/src/main.tsx and frontend/src/components/layout/Header.tsx.
--  AdminSocket: the hook useAdminWS of the admin's pages (admin/src/lib/hooks/useAdminWS.ts).
--  Times: the five functions timeAgo.
--  AuditLog: the entries and the pages of the audit log
--    (frontend/src/components/settings/AuditLogTab.tsx, admin/src/app/audit-logs/page.tsx).
--  VerifyEmail: the page that verifies an email (frontend/src/app/(auth)/verify-email/page.tsx).
--  WhatsappModal: the modal that connects WhatsApp (frontend/src/components/channels/WhatsAppModal.tsx).
--  Review: the page of the unknown questions (frontend/src/app/(dashboard)/teach/unknown/page.tsx).
--  AdminApi: the client of the admin's pages (admin/src/lib/api.ts), AdminApi.Search the parameters of
--    its addresses.
--  Channels: the page of the channels (frontend/src/app/(dashboard)/channels/page.tsx), Channels.WebWidget
--    the form of the widget (frontend/src/components/channels/WebWidgetModal.tsx).
--  WidgetSettings: the configuration of the widget (frontend/src/contexts/WidgetConfigContext.tsx).
--  Shortcuts: the keyboard shortcuts (frontend/src/hooks/useKeyboardShortcuts.ts).
--  Notifications: the page of the notifications (frontend/src/app/(dashboard)/notifications/page.tsx).
--  Users: the search of the users (admin/src/lib/hooks/useUsers.ts).
-- The children of a module hold its theorems, and their Tests the examples.
--
-- State and effects: each component's state is a record, and what it does to the outside is a log in
-- that record, the newest entry first. What comes from outside (the network, the clock, JSON.parse,
-- the ready state of a socket) is a parameter or an event. A React component is taken to be rendered,
-- and its effects run, between two events.
--
-- Fuel: `do_request` takes 1 for each request within a request; 5 is enough for any answers, since
-- `retryCount` goes up to 3 and a refresh, which skips the refresh, comes at 0 only. `execute` takes 1
-- for each attempt; 4 is enough. `none` is a run without enough fuel.
--
-- Numbers: statuses, times and delays are natural numbers, and so are the prices and quantities of the
-- inventory, whose inputs take whole numbers; they are taken to stay within the integers that a double
-- holds.
--
-- Not modelled: markup, styles and focus; the other pages of the dashboard; the
-- backend, which is in another language, but for the frames and the end of a streamed answer
-- (backend/internal/handler/chat_handler.go).
mod Base
pub mod Endpoint
pub mod Json
pub mod Shortcuts
pub mod Socket
pub mod Api
pub mod UseApi
pub mod Widget
pub mod Network
pub mod Modal
pub mod WidgetSettings
pub mod Worker
pub mod Channels
pub mod Chats
pub mod Teach
pub mod Inventory
pub mod Auth
pub mod Notifications
pub mod Onboarding
pub mod Push
pub mod Review
pub mod Toasts
pub mod Settings
pub mod AdminApi
pub mod AdminSocket
pub mod Times
pub mod AuditLog
pub mod Users
pub mod VerifyEmail
pub mod WhatsappModal
pub mod Alerts
pub mod Palette
