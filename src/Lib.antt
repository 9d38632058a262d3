-- ===== src/Lib.antt =====
-- A model of the frontend of a task calendar (frontend/src/App.tsx and frontend/src/api), with
-- theorems about its rules. The program keeps the list of tasks that the server sent, shows it in
-- views and in a calendar, and edits it through a form, by dragging and by undoing; each change is
-- a request with an input that the code here computes.
--
-- Task holds the records of tasks, of the inputs of requests and of the form. Platform is what the
-- browser brings: reading dates, the offsets of time zones, formatted dates and the order of names.
-- Clock turns a wall clock of a time zone into an instant and back (`zonedDateTimeToIso`,
-- `getTimezoneDateKey` and the other date helpers); Clock/Civil is the arithmetic of the standard
-- `Date`, by clauses. Input reads the texts of input fields. Recurrence prints, parses and checks
-- the recurrence rules; Reminder does so for reminders. Forms composes these: the checks of
-- `handleSubmit` and `handleEditSubmit`, and `buildTaskUpdates`. Undo says which changes can be
-- taken back and by which input. Order is the manual order of tasks without a time
-- (`reconcileTaskOrder`, `moveTaskIdRelative`, `buildUnscheduledOrderUpdates`). Views filters tasks
-- (`filterTasksForView`, the category filter, `collapseRecurringTasksForList`). Store is the
-- list of tasks in memory with the user's own changes, and the refreshes that merge them with the
-- server's rows (`refreshTasks`, `mergeLocallyUpdatedTasks`, `replaceTaskInState`). Saver is
-- the queue of `persistUnscheduledOrder`, whose loop is a step for each request and each answer.
-- Calendar is what a drop, a move and a resize in the calendar change
-- (`getCalendarDropScheduleUpdate`, `getCalendarEventScheduleUpdate`), the duration of a drag, and
-- the events that it shows (`mapTasksToCalendarEvents`); Calendar/Placed is both together.
-- Session is the screen that puts these together: each handler that changes tasks (`runTaskUpdate`,
-- `handleEventDrop`, `handleUndoTaskChange` and the others) is a function up to its request, and one
-- from the answer on. Api is `requestJson` with its errors and the event of an expired session;
-- Api/Calls has the path, headers and body of each request of frontend/src/api, Api/Dates the dates
-- of the answers. Storage is the browser's `localStorage`, which may be missing, blocked or full,
-- and Prefs the preferences that are kept there. Categories is the editor of the categories
-- (`handleCreateTaskList`, `handleDeleteFromMenu`), and Account the session with the panels of the
-- settings (`handleAuthSubmit`, `handleAuthExpired`, `handleConfirmBackupImport`); Account/Steps is a
-- step relation on these, in which answers come in any order. Labels has the texts that the screen
-- composes (`formatTaskMeta`, `formatTimezoneLabel`), Swipes the touches that turn the calendar's page
-- (`handleCalendarTouchEnd`), and Panels the panels that a tap opens (`openCreatePanel`). Sync
-- is the timer and the events that start a refresh in the background (`runTaskSyncRefresh`).
-- Base holds the lists, texts, maps, integers and identifiers that they share, Tests concrete cases.
--
-- Functions keep the source's names in snake case. A text is the list of its UTF-16 codes; text
-- literals are ASCII. `T | null` is an option, a missing key of a partial input is one more option
-- around the field. `none` as the answer of a function that the source lets throw is an exception.
-- Instants are integers in milliseconds. Years count from a fixed first year, a multiple of 400,
-- so that natural numbers reach every year of the standard `Date`. `Number` is read on digits
-- only; any other text counts as not a number, which the inputs of the form cannot hold. Loops are
-- structural recursion on a list or on the two rounds of `zonedDateTimeToIso`, and need no fuel.
--
-- Not modelled: rendering, effects on the document, most timers, the tracking of a pointer in a
-- drag, the service worker, and the server, whose answers are inputs. `fetch`, JSON texts and the
-- writing of a query are parameters or left out.
pub mod Base
pub mod Task
pub mod Reminder
pub mod Input
pub mod Undo
pub mod Order
pub mod Platform
pub mod Clock
pub mod Recurrence
pub mod Views
pub mod Forms
pub mod Store
pub mod Saver
pub mod Calendar
pub mod Labels
pub mod Swipes
pub mod Panels
pub mod Sync
pub mod Session
pub mod Categories
pub mod Api
pub mod Storage
pub mod Prefs
pub mod Account
pub mod Tests
