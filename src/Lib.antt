-- ===== src/Lib.antt =====
-- Lokinode: the desktop application that runs a Flokicoin node and its wallet. A Go backend runs the
-- daemon and serves an HTTP API with a stream of events; the frontend, in TypeScript, is what the user
-- sees. This library models the logic of the frontend: the state of its pages, its stores, its forms
-- and its requests.
--
-- The parts and how they interact. The pages (frontend/src/pages, frontend/src/views) are React
-- components: a record of their state, handlers that the user's inputs call, and effects that run
-- after a render. They share stores (frontend/src/store), read the backend's events
-- (frontend/src/providers) and its answers to requests (frontend/src/lib/fetcher.ts), and show notices
-- as toasts (frontend/src/hooks/useToast.ts).
--
-- A handler is a function from the state to the state. A handler that awaits a request ends where it
-- awaits, and a second function, which takes the outcome of the request, goes on from there; in
-- between any input may come. The requests that leave a page are a list in its state. A timer is the
-- time at which it is due, or nothing. Texts that the program only compares are strings; texts that it
-- takes apart are lists of their UTF-16 code units.
--
-- Which file models which part:
--   Common     the shared names, the lists over the native numbers, and the methods of JavaScript's
--              strings that the program calls (trim, split, join, startsWith, includes)
--   Daemon     the backend's answers and events: frontend/src/lib/types.ts
--   Fetcher    fetcher, post, patch, getRawToken, ApiError: frontend/src/lib/fetcher.ts; AsMap is the view
--              of the headers that forgets the order of their entries
--   Session    the shared stores: frontend/src/store/nodeSession.ts, frontend/src/store/nodeConfig.ts,
--              and useTransitionStore
--   Stream     frontend/src/providers/EventStreamProvider.tsx
--   Version    isNewerVersion: frontend/src/lib/version.ts
--   Toast      frontend/src/hooks/useToast.ts
--   Node       the page of the running node, frontend/src/pages/Node/Node.tsx: Page is its state,
--              Derived and Texts the values of a render, Handlers the handlers, Effects the effects and
--              timers, Commit which of them run, Steps the mounted page over time
--   Send       frontend/src/views/node/Send.tsx: funding, reviewing, sending, and releasing the inputs
--              that funding locks
--   Onboard    the wizard of frontend/src/pages/Onboard/Onboard.tsx: Wizard is its state and its
--              validation, Texts its frame, Overlay the overlay of a launch, Steps its handlers, Awaits
--              the requests of Next, Poll pollUntil, Launch handleLaunch
--   Network    frontend/src/views/settings/Network.tsx: the validation of the form, Dirty its comparison
--              with the running daemon, Autosave the save on its own, and the restart that applies it
--   Main       frontend/src/pages/Main/Main.tsx: Page is its state, Start performStart, Alias the name,
--              Nodes the recent nodes and their directories, Sheet the rows of their sheet, Effects
--              the effects and timers, Steps the mounted page over time. Stopped and Unlocks follow a
--              stop and a start from one of the two pages to the other, Covered a start that comes
--              while the overlay of a stop is shown
--   Wallet     Notices and Amounts frontend/src/hooks/useNotifyIncoming.ts, Receive
--              frontend/src/views/node/Receive.tsx, Transactions frontend/src/views/node/Transactions.tsx,
--              Password frontend/src/views/settings/Security.tsx
--   Shell      Layout frontend/src/App.tsx, Update frontend/src/views/main/UpdateAlert.tsx, Header
--              frontend/src/components/Header/Header.tsx and frontend/src/pages/Settings/Settings.tsx
--   Clipboard  the buttons that copy, on six pages; Credentials the rows of the macaroon and the
--              certificate in frontend/src/views/settings/Network.tsx
--   Confirm    frontend/src/components/ui/ConfirmButton.tsx
--   Language   the lookup of a translation and the language that is kept,
--              frontend/src/i18n/context.tsx; Template is the independent description of a text with
--              its placeholders, Complete the test of a table
--   Translations  the texts, frontend/src/i18n/translations.ts: a module per language with a module
--              per part of its object
--   Format     the texts of ages, uptimes, paths, hashes, words and errors: frontend/src/lib/utils.ts,
--              frontend/src/utils/format.ts, and the functions for them in
--              frontend/src/pages/Node/Node.tsx and frontend/src/views/node/Transactions.tsx
--   LogStream  the live tail of frontend/src/components/LogStream/LogStream.tsx
--   Regex      the regular expressions of the forms, by derivatives
--
-- Parameters. Number of a text (in Version and Shell), the rounded amount of a text and the text of
-- an amount (in Send), the text of a number (in Toast and Stream), JSON.stringify (in Fetcher),
-- new URL (in Network) and toFixed (in Wallet) are arguments of the definitions that use them, since
-- they are JavaScript's own; what a theorem needs of one is a hypothesis with a witness. So is the
-- type of an address (in Wallet), which the wallet decides.
--
-- Bounds. getRawToken is a recursion on its 20 rounds. pollUntil is a recursion on fuel: a clock that
-- each round moves on by at least a millisecond needs one round more than the timeout has
-- milliseconds, and with that fuel the loop ends. Numbers are natural numbers, but for amounts that
-- may be negative and ages; the floating-point quotient in a notice agrees with the exact one to its
-- eight decimals below 2^52 loki; the counter of toasts keeps its wrap-around.
--
-- Not modelled: the layout of the pages (a page's message is its key), the optimistic writes to the
-- cache of answers, bars whose width is a floating-point number, texts that depend on the locale, the
-- picture of an address, and the backend, whose answers are inputs.
mod Common
pub mod Daemon
pub mod Fetcher
pub mod Node
pub mod Send
pub mod Regex
pub mod Session
pub mod Stream
pub mod Toast
pub mod Translations
pub mod Version
pub mod LogStream
pub mod Network
pub mod Onboard
pub mod Main
pub mod Wallet
pub mod Shell
pub mod Format
pub mod Clipboard
pub mod Confirm
pub mod Language
