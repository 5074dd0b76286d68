-- ===== src/Control/Wrapper/Store.antt =====
-- internal/control/wrapper/queue.go: what the queue keeps in Redis, and its two scripts. The prefixes of the
-- keys are distinct, so each prefix is a table of its own; every key is written with a time to live, and
-- is read as missing from that instant of the server's clock on. The stream only grows, and the ids that
-- the server gives its entries are counted from one. Which entries a group delivers, and whether a group
-- is new, are the server's choice: `execute` leaves those answers open.
use gateway_platform.Base.{
  ℕ, Bool, true, false, not, Option, none, some, List, [], ◌∷◌, ◌++◌, ◌+◌, ◌*◌, ◌/◌, ltb,
  if◌then◌else◌, ◌==◌, nat_eq, list_eq, length, is_some, some_and,
}
use gateway_platform.Base.Int.{ℤ, pos, negsuc, sub_ℕ, ltb_ℤ}
use gateway_platform.Base.Text.{Text}
use gateway_platform.Base.Map.{update, remove}
use gateway_platform.Contracts.Types.{Time}
use gateway_platform.Contracts.Wrapper.{WrapperJob, WrapperLease, WrapperError}

-- A week, in seconds.
abbrev pub terminal_ttl : ℕ
terminal_ttl = 604800

abbrev pub max_lease_seconds : ℕ
max_lease_seconds = 900

-- What the payload of an entry decodes to.
pub data Payload : Type 0 where
  missing undecodable : Payload
  encoded : WrapperJob → Payload

pub record Entry : Type 0 where
  pub id : ℕ
  pub job_id : Text
  pub payload : Payload

pub record LeasedMessage : Type 0 where
  pub message_id : ℕ
  pub lease : WrapperLease

pub data QueueError : Type 0 where
  invalid : WrapperError → QueueError
  lease_too_long payload_missing payload_undecodable identity_differs : QueueError
  call_failed nothing lease_lost terminal_conflict : QueueError
  not_dead_lettered : QueueError → QueueError

-- `clock` is the server's, in milliseconds.
pub record Store : Type 0 where
  pub clock : ℕ
  pub terminals : Text → Option (Text × ℕ)
  pub enqueued : Text → Option (ℕ × ℕ)
  pub leases : Text → Option (LeasedMessage × ℕ)
  pub owners : ℕ → Option (Text × ℕ)
  pub entries : List Entry
  pub acked : List ℕ
  pub dead : List (ℕ × QueueError × Time)

-- GET: the value of a key that has not expired.
abbrev pub live {ℓ} : {A : Type ℓ} → ℕ → Option (A × ℕ) → Option A
live now none = none
live now (some (a, expires)) = if ltb now expires then some a else none

abbrev pub expiry : Store → ℕ → ℕ
expiry s seconds = s.clock + seconds * 1000

-- The arguments of `terminalScript`; `now` and `expires` are UnixMilli.
pub record TerminalCall : Type 0 where
  pub job_id : Text
  pub payload : Text
  pub lease_id : Text
  pub message_id : ℕ
  pub now : ℤ
  pub expires : ℤ

-- Time.UnixMilli of an instant in nanoseconds since Go's zero time.
unfoldable pub unix_milli : Time → ℤ
unix_milli t = sub_ℕ (t / 1000000) 62135596800000

-- The calls of the queue, by the key that they name.
pub data Command : Type 0 where
  create_group pending_ids : Command
  lease_exists get_owner drop_owner ack : ℕ → Command
  take_owner : ℕ → Text → ℕ → Command
  claim_entry : Text → ℕ → Command
  read_new : Text → Command
  terminal_exists get_terminal get_lease : Text → Command
  add_dead : ℕ → QueueError → Time → Command
  store_lease : LeasedMessage → ℕ → Command
  run_enqueue : WrapperJob → Command
  run_terminal : TerminalCall → Command

-- `failed` is any error but redis.Nil, which is `missing_key`.
pub data Reply : Type 0 where
  failed missing_key busy_group done : Reply
  flag : Bool → Reply
  number : ℤ → Reply
  text : Text → Reply
  ids : List ℕ → Reply
  found : List Entry → Reply
  leased : LeasedMessage → Reply
  message : ℕ → Reply

-- The entry that XADD appends.
abbrev pub added_entry : WrapperJob → Store → Entry
added_entry job s = record { id = length s.entries + 1; job_id = job.job_id; payload = encoded job }

unfoldable pub enqueue_script : WrapperJob → Store → Reply × Store
enqueue_script job s = elim (live s.clock (s.enqueued job.job_id)) [
  | some id ↦ (message id, s)
  | none ↦ (
    message (added_entry job s).id,
    record s {
      entries = s.entries ++ added_entry job s ∷ [];
      enqueued = update s.enqueued job.job_id ((added_entry job s).id, expiry s terminal_ttl);
    },
  )
]

unfoldable pub write_terminal : TerminalCall → Store → Store
write_terminal c s = record s {
  terminals = update s.terminals c.job_id (c.payload, expiry s terminal_ttl);
  acked = c.message_id ∷ s.acked;
  leases = remove s.leases c.lease_id;
  owners = remove s.owners c.message_id;
}

unfoldable pub terminal_script : TerminalCall → Store → Reply × Store
unfolding write_terminal
terminal_script c s = elim (live s.clock (s.terminals c.job_id)) [
  | some existing ↦ (if existing == c.payload then number (pos 1) else number (negsuc 1), s)
  | none ↦
      if not (ltb_ℤ c.now c.expires)
      then (number (negsuc 0), s)
      else if not (is_some (live s.clock (s.leases c.lease_id)))
      then (number (negsuc 0), s)
      else if not (some_and (λ owner. owner == c.lease_id) (live s.clock (s.owners c.message_id)))
      then (number (negsuc 0), s)
      else (number (pos 0), write_terminal c s)
]

-- A reply that carries a value, or redis.Nil.
abbrev pub or_missing {ℓ} : {A : Type ℓ} → (A → Reply) → Option A → Reply
or_missing f none = missing_key
or_missing f (some a) = f a

-- SET NX of the marker of a message.
unfoldable pub set_owner : ℕ → Text → ℕ → Store → Reply × Store
set_owner id owner ttl s =
    if is_some (live s.clock (s.owners id))
    then (flag false, s)
    else (flag true, record s { owners = update s.owners id (owner, expiry s ttl) })

-- The transaction that records a lease and makes it the owner of its message.
unfoldable pub set_lease : LeasedMessage → ℕ → Store → Store
set_lease r ttl s = record s {
  leases = update s.leases r.lease.lease_id (r, expiry s ttl);
  owners = update s.owners r.message_id (r.lease.lease_id, expiry s ttl);
}

-- What a call answers and does; `none` where the answer is the server's choice.
unfoldable pub execute : Command → Store → Option (Reply × Store)
unfolding enqueue_script terminal_script set_owner set_lease
execute create_group s = none
execute pending_ids s = none
execute (claim_entry worker id) s = none
execute (read_new worker) s = none
execute (lease_exists id) s = some (flag (is_some (live s.clock (s.owners id))), s)
execute (get_owner id) s = some (or_missing text (live s.clock (s.owners id)), s)
execute (drop_owner id) s = some (done, record s { owners = remove s.owners id })
execute (ack id) s = some (done, record s { acked = id ∷ s.acked })
execute (take_owner id owner ttl) s = some (set_owner id owner ttl s)
execute (terminal_exists job_id) s = some (flag (is_some (live s.clock (s.terminals job_id))), s)
execute (get_terminal job_id) s = some (or_missing text (live s.clock (s.terminals job_id)), s)
execute (get_lease lease_id) s = some (or_missing leased (live s.clock (s.leases lease_id)), s)
execute (add_dead id reason at) s = some (done, record s { dead = (id, reason, at) ∷ s.dead })
execute (store_lease r ttl) s = some (done, set_lease r ttl s)
execute (run_enqueue job) s = some (enqueue_script job s)
execute (run_terminal c) s = some (terminal_script c s)
