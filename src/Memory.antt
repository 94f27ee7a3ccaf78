-- ===== src/Memory.antt =====
-- src/memory.rs: the tables that the in-memory provider keeps behind one mutex. Each method holds
-- the lock from its first read to its last write, so it is one function on `Inner`. A method that
-- may fail returns its result beside the new state; one that cannot returns the value alone, and
-- one that only reads returns no state.
pub mod Lifecycle
pub mod Invariant
pub mod Valid
pub mod Manage
pub mod Dequeue
pub mod Steps
pub mod Mailbox
pub mod Streams
pub mod Events
pub mod Delete
pub mod Fork
pub mod Listing
pub mod Collect
pub mod Schedules
pub mod Versions
pub mod Queues
pub mod Calls
pub mod Drain
use durust.Base.{ℤ, String, Bool, Option, none, List, []}
use durust.Platform.{Platform}
use durust.Store.{HashMap}
use durust.Provider.{WorkflowStatus, VersionInfo}
use durust.Schedule.{WorkflowSchedule}
use durust.Queue.{WorkflowQueue}

pub record NotificationRow (p : Platform) : Type 0 where
  pub message_uuid : String
  pub destination_id : String
  pub topic : String
  pub message : p.Value
  pub consumed : Bool
  pub created_at_ms : ℤ

pub record StepRow (p : Platform) : Type 0 where
  pub name : String
  pub output : Option p.Value
  pub error : Option String
  pub child_workflow_id : Option String
  pub started_at_ms : Option ℤ
  pub completed_at_ms : Option ℤ

pub record Inner (p : Platform) : Type 0 where
  pub workflows : HashMap String (WorkflowStatus p)
  pub steps : HashMap (String × ℤ) (StepRow p)
  pub notifications : List (NotificationRow p)
  pub events : HashMap (String × String) p.Value
  pub streams : HashMap (String × String) (List (Option p.Value))
  pub schedules : HashMap String (WorkflowSchedule p)
  pub versions : HashMap String (VersionInfo p)
  pub queues : HashMap String WorkflowQueue

module _ {p : Platform} where
  -- `InMemoryProvider::new`
  abbrev pub new_provider : Inner p
  new_provider = record {
    workflows = [];
    steps = [];
    notifications = [];
    events = [];
    streams = [];
    schedules = [];
    versions = [];
    queues = [];
  }
