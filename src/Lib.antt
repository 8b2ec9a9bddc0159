-- ===== src/Lib.antt =====
-- JustProjects: the logic of the web client, services/frontend.
--
-- The program is a project-management workspace. The client (Next.js and React, services/frontend)
-- loads a project with its tasks, milestones and settings from the backend's /api/v1, shows it, and
-- changes it through handlers that show a change at once and take it back if the backend refuses it.
--
-- How the files correspond to the code:
--   Types       the records of services/frontend/lib/types.ts.
--   Slug        the slugs of public pages, `normalizePublicPageSlug`, `defaultPublicPageSlug` and
--               `isValidPublicPageSlug` of services/frontend/components/project-workspace.tsx.
--   Workspace   the component `ProjectWorkspace` of the same file. `World` is its state with the
--               requests in flight (`pending`) and what it has done outside (`effects`). A handler is
--               cut at its `await`s: the part before the first one is a function that leaves a `Job`,
--               and each part behind an `await` is a function of the answer. Load, Refresh, Tasks,
--               Milestones and Projects hold the handlers; Events makes them a machine whose `Step`s
--               are the actions of the user and the timers, and the answers, in any order.
--   Toast       the toasts of services/frontend/components/toast-provider.tsx; Workspace logs the
--               toasts that its handlers show.
--   Kanban      the board of services/frontend/components/kanban-board.tsx; the change of status that
--               a drop asks for is the action that Workspace's `start_change_status` begins with.
--   Roadmap     the data of the chart of services/frontend/components/roadmap-view.tsx. The browser's
--               date parser and clock are parameters.
--   Workflow    the order of the workflow statuses in the project settings of project-workspace.tsx.
--   TaskList    the nested list of services/frontend/components/task-list.tsx.
--   Notifications  the bell of services/frontend/components/notification-bell.tsx, as a machine of its
--               own: gestures, the timer, and answers in any order.
--   Filters     the search and the filters of the task view of project-workspace.tsx; the browser's
--               date parser is a parameter.
--   Inbox       the request inbox of services/frontend/components/request-inbox.tsx, as a machine.
--   ConnectionDialog  the dialog of services/frontend/components/git-connection-dialog.tsx, as a
--               machine; the parent's state that opens it is part of it, and so is the new
--               instance that is mounted at each opening and closing (its `key`).
--   Integrations  `IntegrationsView` of project-workspace.tsx: the connections, the repositories of the
--               project and the conflicts, as a machine with the effects that React runs. It has the
--               parent's handlers only as calls that it logs, and the parent's data as an event.
--   PublicPages   the public pages and the form of a new status in `ProjectSettings` of
--               project-workspace.tsx, as a machine; it uses Slug for what is typed and sent, and
--               Workflow for the order of the statuses.
--   Translation   `translate` and `detectBrowserLocale` of services/frontend/lib/i18n.ts, over any two
--               dictionaries.
--   Answers     what is thrown and its message, for Inbox, ConnectionDialog, Platform, Auth and
--               PublicStatus.
--   Platform    services/frontend/components/platform-admin.tsx: the page, its counters, users, projects
--               and settings, as a machine with the guards of its buttons.
--   Dialogs     task-dialog.tsx and milestone-dialog.tsx of services/frontend/components: the forms; their
--               inputs are those that Workspace's handlers take.
--   Auth        services/frontend/components/auth-page.tsx: login, registration and identity provider, as
--               a machine whose runs are kept with the requests that were accepted in them.
--   PublicStatus  services/frontend/components/public-project-page.tsx: the loading and the sign-in of a
--               customer, as a machine whose runs are kept with the data that were answered in them.
--   Access      `WorkspaceAccessPanel` of project-workspace.tsx: members, invitations and grants, as a
--               machine for one session.
--   Mappings    services/frontend/components/git-assignee-mappings.tsx: the handlers, and the logins
--               proposed for a mapping; the sorting by `localeCompare` is an argument.
--   Api         `request` of services/frontend/lib/api.ts, over what `fetch` answers.
--
-- Conventions. A handler reads the state that was rendered when it was called, which is the state at
-- that moment: React renders between two events. A translated message is its translation key. A
-- request that a handler sends is logged in `effects`, and its answer is an argument, `Outcome`, of
-- the code behind the `await`. Identifiers are native texts; where the code looks into a text, the
-- text is the list of its code points. `toLowerCase` is exact on ASCII and Latin-1 and on the two
-- other code points whose lower case holds an ASCII letter; any other letter keeps its case.
-- The lists are walked by structural recursion. Two definitions take fuel. `TaskList.walk`, which
-- follows the parents of the tasks, takes one more than the number of tasks, which is enough where no
-- identifier is given two parents, since a chain of parents from a root never comes back to a task.
-- The printing of a number takes one more than the number, which each digit divides by ten. The
-- answers that `Platform.Calm.drain` gives in a row are counted by the work that is left.
--
-- Not modelled: the rendering, the ReUI and shadcn components under services/frontend/components/reui
-- and services/frontend/components/ui, the generated API types, the dictionaries of translations, the
-- functions of the API client that name a path (a request is a name, its answer an argument), the form of a new project, the forms of
-- project requests, the application shell and its search, the sync activity, the updates, the portfolio
-- and the customer pages, and the Go backend.
pub mod Base
pub mod Types
pub mod Slug
pub mod Toast
pub mod Workspace
pub mod Kanban
pub mod Roadmap
pub mod Workflow
pub mod TaskList
pub mod Notifications
pub mod Filters
pub mod Inbox
pub mod ConnectionDialog
pub mod Integrations
pub mod PublicPages
pub mod Translation
pub mod Platform
pub mod Dialogs
pub mod Auth
pub mod PublicStatus
pub mod Access
pub mod Mappings
pub mod Api
pub mod Answers
