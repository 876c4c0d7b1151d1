-- ===== src/Lib.antt =====
-- Verification of the browser side of tether-ddns, a self-hosted dynamic DNS service.
--
-- The page keeps one websocket to the server (frontend/src/liveConnection.ts). What arrives on it
-- becomes the state that the page shows (frontend/src/useLiveState.ts). Everything that the user
-- changes goes over HTTP (frontend/src/api.ts); the page (frontend/src/App.tsx) holds the lists,
-- the modals and the toasts, and the modals hold their forms and their errors
-- (frontend/src/components, frontend/src/formErrors.ts). The views show times, incidents and
-- checks with the functions of frontend/src/utils.ts.
--
-- Prelude: names of the libraries that are passed on, lists and dictionaries, texts, integers.
-- Types: frontend/src/types.ts.
-- LiveConnection: frontend/src/liveConnection.ts. State has the fields of the class and what it uses
--   of the browser, Handlers one function per method (camelCase becomes snake_case: `handleOpen` is
--   `handle_open`), Backoff the delay, and Events every event that can occur; a run is any list of
--   events. The other modules hold proofs. A socket, a timer and a listener are numbers; a timer
--   fires at any time after it was set, which allows more runs than a clock does.
-- LiveState: frontend/src/useLiveState.ts over LiveConnection, useIncidents.ts, useDelayedFlag.ts.
-- Utils: frontend/src/utils.ts. Duration and Ago have the texts for times, Hue the colour of a
--   provider, Incidents the day buckets and the uptime, Checks the state of healthchecks.
-- Api: frontend/src/api.ts; Encoding is `encodeURIComponent` and its inverse.
-- FormErrors: frontend/src/formErrors.ts. Saving puts clicks and answers in any order.
-- Forms: the states of frontend/src/components/DomainModal.tsx, HookModal.tsx, ProjectModal.tsx, and
--   in Schema the values, types and labels of the fields that SchemaForm.tsx makes.
-- App: frontend/src/App.tsx. Copy is frontend/src/deleteCopy.tsx, Deletes and Dialog the deleting with
--   frontend/src/components/ConfirmModal.tsx, Saves the modals, Actions the other handlers. A handler
--   that awaits an answer is two functions, up to the answer and from it on. Modals puts what the
--   user does and what the server answers in any order, each with the days that are shown then;
--   RailWidth is the dragging of frontend/src/layout/Rail.tsx and the width that App.tsx restores
--   with the `parseInt` of RailText.
-- Views: what frontend/src/components/ReachabilityPanel.tsx, RecordHealthPanel.tsx,
--   HealthchecksPanel.tsx, HcSummary.tsx, IncidentModal.tsx, frontend/src/views/OverviewView.tsx and
--   LogsView.tsx compute, and the heartbeat panel of SettingsView.tsx in Settings. A list is sorted
--   by insertion, which like `sort` keeps the order of equals.
-- Html: elements with their attributes and handlers, and what can be read off them: ids, references,
--   alerts, texts, and the handlers that are within reach, that is, neither disabled nor inert.
-- Markup: what the components render, as a function of their properties and states. Widgets, Dialogs
--   and Layout have the parts of frontend/src/components and frontend/src/layout that others use;
--   Fields, DomainForm, HookForm and ProjectForm the forms; Cards, Projects, ChecksTable, LogLines,
--   SettingsPage and AboutPage the pages of frontend/src/views; Heartbeat, Panels and ChecksPanel what
--   the overview is made of; DayDialog the modal of a day; Page the shell of App.tsx. What a
--   handler does is an event, which is a type of the form or a parameter. The other modules hold proofs.
--
-- Numbers: the source's floating-point numbers are exact here. Times that the source holds in
-- seconds with a fraction are whole milliseconds, and ratios are fractions of natural numbers. The
-- hash of Hue wraps at 32 bits as in the source. Texts made from templates are lists of pieces,
-- with numbers that are not printed yet. A text that is taken apart is a list of UTF-16 code units.
-- Recursion is structural; only the digits of a number (Prelude.Strings.decimal) are written on fuel,
-- which is the number itself and so at least as many steps as there are digits.
--
-- What is not in src/ is a parameter: the calendar of the host (Utils.Incidents.Calendar, with the
-- laws of `Date`), the URL parser, the casts of a payload, random numbers and ids. React's rendering
-- is not modelled: an effect is a function that runs when its dependencies change. Not modelled are
-- drawings, styles, focus, dates as the locale writes them, the
-- markup of frontend/src/components/ReachabilityPanel.tsx and of frontend/src/views/OverviewView.tsx
-- around its panels, and the server in Python.
pub mod Prelude
pub mod Types
pub mod LiveConnection
pub mod Api
pub mod LiveState
pub mod Forms
pub mod App
pub mod Views
pub mod Html
pub mod Markup
pub mod FormErrors
pub mod Utils
