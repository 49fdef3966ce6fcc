-- ===== src/Lib.antt =====
-- The web client of NetFleet (frontend/src), in TypeScript: the browser's part of a server that manages
-- routers and Linux hosts of many sites. Its own logic is the session with the API (an access token, a
-- refresh cookie that each use replaces, several tabs that share it), the functions that call the API,
-- and the calculations of the views.
--
-- Files and source (paths without a root are under frontend/src)
--   Common, Common/*     shared names, texts (lists of code points), lists, Boolean tests
--   Json, Payload        JSON values, optional fields, requests by their parts
--   Session/Storage      lib/auth-storage.ts: AuthStorage with its copy in sessionStorage
--                        (getAccessToken is get_access_token, and so on)
--   Session/Client       lib/api.ts: the ky instance `api` with its hooks beforeRequest and
--                        afterResponse, doRefresh, readErrorMessage
--   Session/Auth         lib/auth.ts: every function
--   Session/Refresh      lib/api.ts: tryRefresh in any number of tabs, as a step relation
--   Pager                components/pager.tsx: pageWindow and the component Pager
--   Pool                 lib/pool.ts: runPool, as a step relation
--   Audit                app/dashboard/audit/page.tsx: groupBySession
--   Bytes                lib/host-health.ts and lib/resources.ts: formatBytes
--   Firmware             lib/pool.ts: normFw, and app/dashboard/bulk/firmware/page.tsx: which
--                        devices are offered (upgradable), in which groups, selected (toggleGroup,
--                        toggleDevice) and planned, and the call for each of them
--   Toast                components/toast.tsx: ToastProvider and ToastRow, as a step relation
--   Login                app/login/page.tsx: the phases of a sign-in, with calls that are awaited
--   Setup                app/setup/page.tsx: slugify, the guards of onSubmit
--   Discovery            app/dashboard/devices/[id]/network/page.tsx: parseProtocols, toggleProtocol
--   Tunnel               app/dashboard/wg-s2s/new/page.tsx: the wizard up to the request it applies
--   Table                app/dashboard/devices/[id]/dhcp/page.tsx: useTable
--   RuleForm             components/ufw-firewall.tsx: splitDestination and RuleForm
--   Uri                  encodeURIComponent of ECMAScript, with which lib/*.ts builds its paths
--   Api, Api/*           lib/ufw.ts, firewall.ts, network.ts, vpn.ts, dhcp.ts, device-ops.ts,
--                        queues.ts, system-logging.ts, router-system.ts, users.ts, roles.ts,
--                        devices.ts, settings.ts, bulk.ts, backups.ts, access-requests.ts, firmware.ts,
--                        packages.ts, linux.ts, sites.ts, tenants.ts, audit.ts, events.ts, reports.ts,
--                        updates.ts, notifications.ts, access.ts, risk-report.ts, drivers.ts,
--                        host-health.ts, resources.ts, wg-s2s.ts: the endpoint functions
--   Modules named Tests  runs on concrete inputs
-- How they interact: Session/Auth and Api call Session/Client, which reads and writes Session/Storage;
-- Api builds its requests with Payload and Uri. All are functions from a tab (its storage, its flag
-- lastRefreshRejected, the time and the requests sent so far) to a tab and a result. Login awaits the
-- functions of Session/Auth and Setup calls one; Firmware/Upgrade performs the endpoints of
-- Api/FirmwareOps; RuleForm, Tunnel and Discovery make the payloads of Api/Ufw, Api/SiteToSite and
-- Api/Network. Session/Refresh is an account of its own of the refresh, in which tabs, network and
-- server take steps in any order.
--
-- What a definition uses of JavaScript's toLowerCase, localeCompare and Number is a parameter of it.
-- The rest of the code outside the repository is the parameter Env: the answer to a request (ky,
-- fetch, the network and the server as one, with the time that it took) and the reading of a date. A
-- request that ky rejects (no network, a timeout) is an answer of its own. Nothing is assumed of
-- either, but for the API's answers to a sign-in, of which each theorem of Login says what it needs. In
-- Session/Refresh the server may answer a refresh as it likes, and any other answer may set or remove
-- the refresh cookie at any time. Of the URL parser of the host, the theorem on addresses says what it
-- relies on.
--
-- Bounds and fuel: a loop is recursion on its list or on what is left to do, as on the larger units
-- in Bytes. Only the printing of a number takes fuel, the number plus one, which is more than
-- it has digits. Times, counts and sizes are natural numbers, without bound, where the source has
-- numbers that are exact up to 2^53.
--
-- Not modelled: overlapping calls in one tab outside Session/Refresh (in Session/Client a call
-- ends before the next begins); dates before 1970; rendering on the server, where there is no
-- sessionStorage, beyond the storage itself; what ky repeats by itself within an exchange, and its
-- timeouts; a success whose body is neither JSON nor empty; timers of notifications that fire late;
-- the joining of URLs by ky beyond prefix, slash and path; a body of a granted refresh that is not an
-- object with both texts counts as a refusal; a token that is undefined (of another answer without
-- one) is stored as none, so that isExpiringSoon takes it for null, and a member that is no text
-- counts as missing; default arguments are written at each call; the reading of ?next= on the sign-in
-- page, which is a parameter; fractions and negative numbers in
-- fields. The rest of the views, the Python backend and the updater are not modelled.
pub mod Common
pub mod Json
pub mod Uri
pub mod Payload
pub mod Pager
pub mod Session
pub mod Api
pub mod Pool
pub mod Audit
pub mod Toast
pub mod Bytes
pub mod Firmware
pub mod Login
pub mod Discovery
pub mod Tunnel
pub mod Table
pub mod RuleForm
pub mod Setup
