-- ===== src/Control/Wrapper/Progress.antt =====
-- Complete on its own: a worker that holds its lease gets its result recorded.
use gateway_platform.Control.Wrapper.Standing.{Stands}
use gateway_platform.Base.Int.{ltb_ℤ, pos, int_beq}
use gateway_platform.Contracts.Types.{Time}
use gateway_platform.Control.Wrapper.Program.{drive, Inputs, Program, call, read_clock, finish}
use gateway_platform.Contracts.Wrapper.{
  WrapperLease, validate_lease, validate_completion_lease, validate_wrapper_lease_result,
  WrapperCompletion,
}
use gateway_platform.Control.Wrapper.Queue.{
  same_lease, write_result, after_existing, check_record, after_record, after_owner, run_script,
  after_script, accepted, complete, TerminalEnvelope, completed,
}
use gateway_platform.Control.Wrapper.Store.{
  Store, terminal_script, live, TerminalCall, unix_milli, number, write_terminal, execute, Command,
  run_terminal, get_terminal, Reply, leased, get_lease, missing_key, get_owner, text, expiry,
  terminal_ttl,
}
use gateway_platform.Base.{
  ◌≡◌, refl, true, none, some, arith, nat_eq, list_eq, ==_refl, ltb, ◌∷◌, List, ℕ, false, ap, ◌∙◌,
  [],
}
use gateway_platform.Base.Text.{Text, text_beq_iff}

-- What the script sees: no result, and the lease recorded, unexpired and the owner of the message.
abbrev pub Ready : Store → WrapperLease → ℕ → Type 0
Ready s lease id =
    (live s.clock (s.terminals lease.job_id) ≡ none)
    × (live s.clock (s.leases lease.lease_id) ≡ some (record { message_id = id; lease = lease }))
    × (live s.clock (s.owners id) ≡ some lease.lease_id)

same_lease_refl : (lease : WrapperLease) → same_lease lease lease ≡ true
unfolding same_lease
same_lease_refl l = rw (
  ==_refl l.schema_version,
  ==_refl l.job_id,
  ==_refl l.lease_id,
  ==_refl l.worker_id,
  ==_refl l.account_id,
  ==_refl l.fence_epoch,
  ==_refl l.expires_at,
)

abbrev terminal_call : WrapperLease → Text → ℕ → Time → TerminalCall
terminal_call lease payload id now = record {
  job_id = lease.job_id;
  payload = payload;
  lease_id = lease.lease_id;
  message_id = id;
  now = unix_milli now;
  expires = unix_milli lease.expires_at;
}

script_writes :
    (lease : WrapperLease) (payload : Text) (id : ℕ) (now : Time) (s : Store)
    → Ready s lease id
    → ltb_ℤ (unix_milli now) (unix_milli lease.expires_at) ≡ true
    → terminal_script (terminal_call lease payload id now) s
      ≡ (number (pos 0), write_terminal (terminal_call lease payload id now) s)
unfolding terminal_script
script_writes lease payload id now s (fresh, held, owned) early =
    ground (arith, text_beq_iff lease.lease_id lease.lease_id)

drive-call :
    {A : Type 0} (c : Command) (k : Reply → Program A) (i : Inputs) (s : Store) (r : Reply)
    (t : Store)
    → execute c s ≡ some (r, t)
    → drive (call c k) i s ≡ drive (k r) i t
unfolding drive
drive-call c k i s r t h = rw (h, drive) refl

-- Inputs with the given instants.
abbrev pub at_instants : List Time → Inputs
at_instants instants = record { replies = []; instants = instants; lease_ids = [] }

drive-clock :
    {A : Type 0} (k : Time → Program A) (now : Time) (rest : List Time) (s : Store)
    → drive (read_clock k) (at_instants (now ∷ rest)) s ≡ drive (k now) (at_instants rest) s
unfolding drive
drive-clock k now rest s = refl

drive-finish : {A : Type 0} (a : A) (i : Inputs) (s : Store) → drive (finish a) i s ≡ (a, s)
unfolding drive
drive-finish a i s = refl

module _ (lease : WrapperLease) (payload : Text) (id : ℕ) (s : Store)
    (ready : Ready s lease id) where
  script_succeeds :
      (now : Time) (rest : List Time)
      → ltb_ℤ (unix_milli now) (unix_milli lease.expires_at) ≡ true
      → drive (run_script lease payload id) (at_instants (now ∷ rest)) s
        ≡ (accepted tt, write_terminal (terminal_call lease payload id now) s)
  unfolding run_script after_script execute int_beq
  script_succeeds now rest late =
      let after = write_terminal (terminal_call lease payload id now) s in
      drive-clock _ now rest s
      ∙ drive-call (run_terminal (terminal_call lease payload id now)) after_script
          (at_instants rest) s (number (pos 0)) after
          (ap some (script_writes lease payload id now s ready late))
      ∙ drive-finish (accepted tt) (at_instants rest) after

  owner_succeeds :
      (now : Time) (rest : List Time)
      → ltb_ℤ (unix_milli now) (unix_milli lease.expires_at) ≡ true
      → drive
          (after_record lease payload false (leased (record { message_id = id; lease = lease })))
          (at_instants (now ∷ rest))
          s
        ≡ (accepted tt, write_terminal (terminal_call lease payload id now) s)
  unfolding after_record
  owner_succeeds now rest late = rw (same_lease_refl lease) (
      drive-call (get_owner id) (after_owner lease payload id) (at_instants (now ∷ rest)) s
        (text lease.lease_id) s owner_answer
      ∙ owned_succeeds)
    where
      owner_answer : execute (get_owner id) s ≡ some (text lease.lease_id, s)
      owner_answer = unfold execute in rw ready.2 refl

      owned_succeeds :
          drive (after_owner lease payload id (text lease.lease_id)) (at_instants (now ∷ rest)) s
          ≡ (accepted tt, write_terminal (terminal_call lease payload id now) s)
      owned_succeeds =
          unfold after_owner in rw (==_refl lease.lease_id) (script_succeeds now rest late)

  check_succeeds :
      (first second : Time) (rest : List Time)
      → ltb first lease.expires_at ≡ true
      → ltb_ℤ (unix_milli second) (unix_milli lease.expires_at) ≡ true
      → drive (check_record lease payload false) (at_instants (first ∷ second ∷ rest)) s
        ≡ (accepted tt, write_terminal (terminal_call lease payload id second) s)
  unfolding check_record
  check_succeeds first second rest early late =
      drive-clock _ first (second ∷ rest) s
      ∙ rw early (
          drive-call (get_lease lease.lease_id) (after_record lease payload false)
            (at_instants (second ∷ rest)) s (leased (record { message_id = id; lease = lease })) s
            (unfold execute in rw ready.1 refl)
          ∙ owner_succeeds second rest late)

  write_result_succeeds :
      (first second : Time) (rest : List Time)
      → validate_lease lease ≡ none
      → ltb first lease.expires_at ≡ true
      → ltb_ℤ (unix_milli second) (unix_milli lease.expires_at) ≡ true
      → drive (write_result lease payload) (at_instants (first ∷ second ∷ rest)) s
        ≡ (accepted tt, write_terminal (terminal_call lease payload id second) s)
  unfolding write_result after_existing
  write_result_succeeds first second rest ok early late = rw ok (
      drive-call (get_terminal lease.job_id) (after_existing lease payload)
        (at_instants (first ∷ second ∷ rest)) s missing_key s (unfold execute in rw ready.0 refl)
      ∙ check_succeeds first second rest early late)

completion_lease-valid :
    (c : WrapperCompletion) (lease : WrapperLease)
    → validate_completion_lease c lease ≡ none
    → validate_lease lease ≡ none
unfolding validate_completion_lease validate_wrapper_lease_result
completion_lease-valid c lease h = ground arith

write_terminal-effect :
    (c : TerminalCall) (s : Store)
    → Stands (write_terminal c s) c.job_id c.payload (expiry s terminal_ttl)
      × ((write_terminal c s).owners c.message_id ≡ none)
      × ((write_terminal c s).leases c.lease_id ≡ none)
      × ((write_terminal c s).acked ≡ c.message_id ∷ s.acked)
unfolding write_terminal
write_terminal-effect c s =
    (rw (==_refl c.job_id) refl, ground arith, rw (==_refl c.lease_id) refl, refl)

-- A Complete that is valid for its lease, while the job has no result and the lease is recorded, unexpired
-- and the owner of its message, and with no other client in between, succeeds: the result is recorded for a
-- week, the message is acknowledged, and the record of the lease and its ownership of the message are gone.
pub complete_succeeds :
    (encode : TerminalEnvelope → Text) (lease : WrapperLease) (c : WrapperCompletion) (id : ℕ)
    (s : Store) (first second : Time) (rest : List Time)
    → Ready s lease id
    → validate_completion_lease c lease ≡ none
    → ltb first lease.expires_at ≡ true
    → ltb_ℤ (unix_milli second) (unix_milli lease.expires_at) ≡ true
    → (t : Store) × (drive (complete encode lease c) (at_instants (first ∷ second ∷ rest)) s
        ≡ (accepted tt, t))
      × Stands t lease.job_id (encode (completed c)) (expiry s terminal_ttl)
      × (t.owners id ≡ none)
      × (t.leases lease.lease_id ≡ none)
      × (t.acked ≡ id ∷ s.acked)
unfolding complete
complete_succeeds encode lease c id s first second rest ready ok early late =
    let call = terminal_call lease (encode (completed c)) id second in
    let (stands, owners, leases, acked) = write_terminal-effect call s in
    (
      write_terminal call s,
      rw ok (
          write_result_succeeds lease (encode (completed c)) id s ready first second rest
            (completion_lease-valid c lease ok) early late),
      stands,
      owners,
      leases,
      acked,
    )
