-- ===== src/Lib.antt =====
-- Verification library of RafineAI self-hosted: the panel, the Next.js client in panel/.
--
-- The panel is a set of pages over one client of the management API. A page keeps its state in
-- `useState` cells, calls `api` of panel/lib/api.ts, and writes what came back into its cells; the
-- chat page also reads a stream of server-sent events. The gateway (gateway/), the API (api/) and
-- the database are other programs in other languages: their answers are parameters.
--
-- How the code is modelled. An async function is an `Exec` (Exec): it takes the state to an outcome,
-- a value or a failure, and a new state, so that what was written before a throw stays written.
-- `try`/`catch`, `finally`, `throw` and a promise that is not awaited are `try_catch`, `finally`,
-- `throw` and `detach`; a handler that reads a cell reads it as it was when it was called
-- (`captured`). A page's state stands beside the world outside it (`Machine` in Page); the
-- environment `Env` has the server, `call`, which gives the outcome of each request, and
-- `meanwhile`, what other handlers do to the page while this one awaits. `IsQuiet` says that they do
-- nothing. Strings are native strings, and lists of UTF-16 code units (`Text`) where the code takes
-- them apart; ids compare by ===. Numbers are natural numbers.
--
-- Files, and what they model (paths from the root of the repository):
--   Prelude       shared names, Boolean tests, lists, text, trim, split and join, ids in a list
--   Scan          regular expressions with the flag g, as matchers: the leftmost match, the loop of
--                 `exec` and the parts of a `replace`; Scan/Fuel and Scan/First have the lemmas
--   Exec, Json    outcomes and handlers; parsed JSON and request bodies
--   Client        panel/lib/api.ts: getToken, setSession, tryRefresh, api (`api`, `api_retry`,
--                 `api_again` for its call with retry = false), in Client/Transfers uploadFile,
--                 authedBlobUrl, login and the request of streamChat. `fetch` takes the next of a
--                 list of answers and records the request. Client/Retry has the theorems.
--                 Client/Sessions has refreshes, logins and logouts as steps in any order, and
--                 Client/Calls is about what `api` makes of the session.
--   Stream        panel/lib/api.ts: the reading loop of streamChat, from the decoded chunks of the
--                 body to the calls of onDelta and onError. JSON.parse is a parameter. Stream/Events,
--                 Stream/Chunks and Stream/Frames have the theorems.
--   Types         panel/lib/types.ts; ToolTypes has the interfaces of the tools and the dashboard
--   Page          what the pages share: requests by the type of their answer, Promise.all as `both`
--   Chat          panel/app/(dash)/chat/page.tsx: the state and choices in Chat, the composed text in
--                 Chat/Content with parseMessageContent, which reads it back (Chat/Content/Stripping
--                 and Chat/Content/Metadata), the handlers in Chat/Actions, `send` in Chat/Send, the
--                 buttons, keys and chips in Chat/Composer, what is shown in Chat/View and
--                 Chat/Menus
--   Markup        panel/components/message-content.tsx: splitBlocks, renderInline, TextBlock, CodeBlock
--   Decimal       numbers with a fraction, and toFixed
--   Charts        panel/components/charts.tsx, with exact fractions for coordinates
--   Access        panel/app/page.tsx, panel/app/(dash)/layout.tsx (the gate, and the shell
--                 with its links in Access/Shell; the forms in Access/Forms), panel/app/login/page.tsx,
--                 panel/app/change-password/page.tsx
--   Theme         panel/lib/settings-context.tsx, panel/lib/theme-bootstrap.tsx
--   Pages         the pages under panel/app/(dash), each with its theorems in a child module.
--                 Pages/Settings/Timers has the settings page as steps, with its timers, and
--                 Pages/Documents/Lifetimes the previews of documents; what a page
--                 shows is in View or Dialog. Page/Loading has what Slack, Sentry, GitHub, the
--                 teams, the history, the chat and the alerts have in common: a row is clicked,
--                 and its contents come later; Pages/Loading has their two halves, and
--                 Pages/Loading/Handlers compares them with the handlers
--   Tools         the pages under panel/app/(dash)/tools
--   Schemas       api/app/schemas.py: the types that the API declares for the bodies of the forms
-- The modules named Tests run the definitions at concrete states.
--
-- Bounds. The loops run over the chunks of a response, the events of a chunk, the lines of a text or
-- the entries of a list, and are structural. Only the loop of matches, `pieces` of Scan, takes fuel:
-- each match takes a code unit at least, so one round more than the text has code units is enough,
-- and with that much or more the result does not depend on the fuel (`pieces_in-fuel`).
--
-- Not modelled: most styles, icons, scrolling and focus; floating-point rounding but that of toFixed;
-- the delays of timers (a timer is an event that may fire); for an object that serves as a map, the
-- order of names that are indices and the name __proto__; how a JSON number is written; and everything outside panel/ but those
-- schemas.
mod Prelude
pub mod Exec
pub mod Json
pub mod Client
pub mod Types
pub mod ToolTypes
pub mod Page
pub mod Chat
pub mod Pages
pub mod Stream
pub mod Tools
pub mod Schemas
pub mod Theme
pub mod Access
pub mod Scan
pub mod Decimal
pub mod Charts
pub mod Markup
