-- ===== src/Openraft.antt =====
-- The plain data of openraft that the source builds and takes apart field by field. The types
-- that it only hands on (memberships) are parameters, in Env.antt.
use replicat.Prelude.{ℕ, String, Bool, Option, List}
use replicat.Params.{TransportableParam}

pub record LeaderId : Type 0 where
  pub term : ℕ
  pub node_id : ℕ

pub record LogId : Type 0 where
  pub leader_id : LeaderId
  pub index : ℕ

pub record Vote : Type 0 where
  pub term : ℕ
  pub node_id : ℕ
  pub committed : Bool

-- `Request` of src/storage/raft.rs
pub data Request : Type 0 where
  execute : String → List TransportableParam → Request

-- `Response` of src/storage/raft.rs
pub record Response : Type 0 where

pub data EntryPayload (Membership : Type 0) : Type 0 where
  blank : EntryPayload Membership
  normal : Request → EntryPayload Membership
  membership : Membership → EntryPayload Membership

pub record Entry (Membership : Type 0) : Type 0 where
  pub log_id : LogId
  pub payload : EntryPayload Membership

pub record SnapshotMeta (EffectiveMembership : Type 0) : Type 0 where
  pub last_log_id : Option LogId
  pub last_membership : EffectiveMembership
  pub snapshot_id : String

pub record LogState : Type 0 where
  pub last_purged_log_id : Option LogId
  pub last_log_id : Option LogId

-- what went wrong, and at what; the text of the cause is left out
pub data ErrorSubject : Type 0 where
  logs store no_subject : ErrorSubject

pub data ErrorVerb : Type 0 where
  read write : ErrorVerb

pub data StorageError : Type 0 where
  io : ErrorSubject → ErrorVerb → StorageError
