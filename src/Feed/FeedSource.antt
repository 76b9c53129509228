-- ===== src/Feed/FeedSource.antt =====
-- feed/IFeedSource.hpp, and what the sources override of it for a restart: the status of a source. An
-- atomic access is one step.
use chrono_trade.Common.{Bool, true, false, if◌then◌else◌}
use chrono_trade.Common.Result.{Result, ok, err}

pub data FeedStatus : Type 0 where
  idle running stopped completed : FeedStatus

abbrev pub same_status : FeedStatus → FeedStatus → Bool
same_status idle idle = true
same_status running running = true
same_status stopped stopped = true
same_status completed completed = true
same_status idle running = false
same_status idle stopped = false
same_status idle completed = false
same_status running idle = false
same_status running stopped = false
same_status running completed = false
same_status stopped idle = false
same_status stopped running = false
same_status stopped completed = false
same_status completed idle = false
same_status completed running = false
same_status completed stopped = false

-- `status_.compare_exchange_strong(expected, desired)`: the status, and whether it was exchanged.
abbrev pub compare_exchange : FeedStatus → FeedStatus → FeedStatus → FeedStatus × Bool
compare_exchange status expected desired =
    if same_status status expected then (desired, true) else (status, false)

-- `IFeedSource::reset_for_restart`
abbrev pub base_reset : FeedStatus → FeedStatus
base_reset status = (compare_exchange (compare_exchange status completed idle).0 stopped idle).0

abbrev pub try_set_running : FeedStatus → FeedStatus × Bool
try_set_running status = compare_exchange status idle running

pub data SourceKind : Type 0 where
  csv socket shared_memory injector : SourceKind

pub data SourceError : Type 0 where
  cannot_open : SourceError

-- `reset_stream`: the sources of a file open it again, which `opens` says to work or not.
abbrev pub reset_stream : SourceKind → Bool → Result SourceError (Unit {0})
reset_stream csv opens = if opens then ok tt else err cannot_open
reset_stream socket opens = ok tt
reset_stream shared_memory opens = ok tt
reset_stream injector opens = if opens then ok tt else err cannot_open

-- `reset_for_restart` of each source: the status after it, and how it ends.
abbrev pub reset_for_restart :
    SourceKind → Bool → FeedStatus → FeedStatus × Result SourceError (Unit {0})
reset_for_restart csv opens status = (base_reset status, reset_stream csv opens)
reset_for_restart socket opens status = (status, ok tt)
reset_for_restart shared_memory opens status = (status, ok tt)
reset_for_restart injector opens status = (base_reset status, reset_stream injector opens)
