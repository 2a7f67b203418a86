-- ===== src/Lib.antt =====
-- Verification of the UnderLX server (github.com/underlx/disturbancesmlx): the disturbances of a
-- metro network, as its operator declares them and its passengers report them, the predictions of
-- trains, the trips of passengers and the points that these earn.
--
-- The parts, the files that model them, and the code that they model:
--
--   Clock          Go's time.Time and time.Duration: nanoseconds since the zero time as a number,
--                  and int64 nanoseconds as an integer, with Sub saturating and the other operations
--                  wrapping around.
--   Disturbances   types/line.go, types/status.go, types/disturbance.go, scrapers.go. Model has the
--                  rows and the queries, AddStatus has Line.AddStatus with Status.Update,
--                  Disturbance.Update and handleNewStatus, and Messages has Status.ComputeMsgType and
--                  the categories. Phase is the abstract machine of one line: idle, unofficial or
--                  official, and Reachable has the databases that any sequence of statuses leads to.
--                  The statuses come from scrapers (the operator) and from Reports.
--   Reports        compute/reports.go, types/report.go. Cache is the interface of go-cache, Model has
--                  the votes, and Evaluate has evaluateSituation, which issues statuses through the
--                  status reporter; in Lifecycle that is handleNewStatus.
--   Stats          compute/stats.go. Model has StatsHandler and RegisterActivity, over the cache
--                  interface of Reports; Reports asks it for the users of a line.
--   Vehicles       types/vehicleeta.go, mqttgateway/vehicleeta.go, compute/vehiclehandler.go. Eta and
--                  ServiceId have the predictions, Wire has what is published of them, and Passengers
--                  and NextTrain have VehicleHandler.NextTrainETA.
--   Accounts       types/androidpairrequest.go. Pairing has CalculateActivationTime.
--   Trips          types/trip.go, types/stationuse.go, resource/trip.go. Update has Trip.Update with
--                  StationUse.Update, and Edit has Trip.Put with getTripToEdit.
--   Network        types/line.go, types/lineschedule.go, types/lobbyschedule.go, utils/utils.go.
--                  Schedules has getScheduleForDay, Open has getOpenSpans, getClosedDuration,
--                  CurrentlyClosed and DisturbanceDuration, Direction has GetDirectionForConnection,
--                  and Lobby has SchedulesToLines, up to the printing of a schedule.
--   PosPlay        posplay/rewards.go, posplay/posplay.go, types/pp_xp_tx.go, types/pp_player.go.
--                  Reward has computeTripXPReward, and Transactions has DoXPTransaction. Achievements
--                  has posplay/achievements.go and posplay/achievementstrategies.go: Strategies and
--                  Handlers have the handlers of every strategy, and Award has achieveAchievement, which
--                  pays through DoXPTransaction. The frame that each handler repeats around its own
--                  part is `guarded`.
--   Timing         compute/typseconds.go. Tally has what UpdateTypicalSeconds takes from the trips, and
--                  Update has the averages that it writes to the connections and the transfers. Samples
--                  is a principle of induction over its loops, which Average applies. Speed has
--                  Trip.AverageSpeed (types/trip.go) and AverageSpeedCached (compute/avgspeed.go).
--   Positions      compute/vehicleeta.go. Store is the interface of go-cache by key and of the moving
--                  average, and Handler has RegisterVehicleETA, VehicleETAs, ConnectionDuration and
--                  VehiclePosition, over the predictions of Vehicles.
--   Bot            discordbot/mutemanager.go. Mutes has MuteManager, and History describes it by the
--                  last commands about a channel.
--   Events         discordbot/posplay.go, posplay/posplay.go. Model has the events that go on and what
--                  their commands store, Bridge has HandleReaction and the ends of events, and
--                  Messages has HandleMessage, all over callbacks; Win has RegisterEventWinCallback
--                  and RegisterDiscussionParticipationCallback, which reward through DoXPTransaction.
--                  Steps carries what the callbacks keep over to the handlers, and Reachable has what
--                  any sequence of them leads to. Managed has the bridges when no message of Discord
--                  has the identifier of an earlier one or a trigger, and Safe what holds of them.
--   Scraper        scraper/mlxscraper/eta.go, scraper/mlxscraper/conditions.go. Etas has
--                  processETAdata, from the entries of an answer to predictions of Vehicles, Fetch has
--                  fetchDestinos and fetchStations, and Conditions has fetchConditions.
--   Texts          Texts as lists of code points, and maps under them, as sync.Map gives them.
--   Announcements  announcements.go, scrapers.go. Sources has AnnouncementStore, and Control has
--                  handleControlScraper.
--   Prelude        The names and lemmas that the parts share; Examples has tests and the theorems at
--                  concrete inputs.
--
-- How the code is modelled. Functions have the code's names in snake case. A table is the list of
-- its rows; an INSERT with ON CONFLICT is `upsert` on the primary key, and a SELECT is `select` with
-- a `sort_by`. The calls of the database that can fail are named (Op, TripOp, XpOp), and a run takes
-- the set of those that fail; a transaction that does not commit leaves the tables as they were. The
-- transactions of achievements are nested in that of their event, and an error in one is taken to
-- leave nothing behind, as a failing statement aborts the whole in PostgreSQL. An identifier, which
-- is a text in the code, is a number where it is only compared; the statuses of a disturbance are
-- kept in its row in place of the join table. The keys "line#submitter" and "station#direction" are
-- pairs. The current time is an argument. The texts that status messages are classified by are
-- lower-cased in Latin-1.
--
-- Code outside the repository is an argument: go-cache with the laws of its documentation
-- (Reports/Cache, Positions/Store), the logarithm and the float32 division of the threshold
-- (Floats), the identifiers of uuid.NewV4, the test that a text is a UUID, the hour of a time in a
-- time zone, the calendar of a time zone and the library timespan (Network/Open), and what the
-- achievements ask of the network and of the levels (Achievements/Strategies). Weights and durations
-- of connections are natural numbers. Where the code goes through float64 seconds or minutes, the
-- model is exact; the floats are too for durations below 97 days. The sums of Timing are exact as
-- well, where the code adds and divides floats.
--
-- Loops are structural recursion on the list that they run over. Those of NextTrainETA over the hops
-- of a ride count the hops first. The binary search of the holidays, Go's sort.Search, has as much fuel as there are
-- holidays, and the loop over the days of a window as much as it has nanoseconds; both are proved to
-- end within it.
--
-- Discord, the folding of diacritics and the decoding of JSON are arguments as well: what a call
-- sends is left out, and whether it succeeds is given. The goroutine that waits for the end of an
-- event is the function end_event, which may run at any time after the event starts.
--
-- Not modelled: HTTP, templates, the messages of the Discord bot, the MQTT broker, encodings,
-- scripting, the parsing of foreign web pages, concurrency (each handler runs alone, as its lock or
-- transaction provides; those of Discord have none, and are taken one after another), and the tables
-- that have no rule of their own.
pub mod Prelude
pub mod Clock
pub mod Texts
pub mod Disturbances
pub mod Reports
pub mod Stats
pub mod Vehicles
pub mod Accounts
pub mod Trips
pub mod Network
pub mod PosPlay
pub mod Timing
pub mod Positions
pub mod Bot
pub mod Announcements
pub mod Events
pub mod Scraper
mod Examples
