-- ===== src/Stream/Rounds.antt =====
-- internal/events/stream.go: RunOnce and reclaim, with the messages that Redis hands out as inputs.
use gateway_platform.Contracts.Types.{Time}
use gateway_platform.Control.Ledger.{Tables, recover_attempts}
use gateway_platform.Stream.Consumer.{
  Codec, Bus, process, Outcome, Calls, StreamMessage, failed, unanswered, answered,
}
use gateway_platform.Base.{
  ◌∷◌, [], none, some, Bool, ℕ, List, Option, if◌then◌else◌, true, false, ◌-◌, not, ◌||◌,
}

-- What a round meets: whether the calls before a message succeed, the messages that are claimed and that are
-- read, each with the calls of its delivery, and the recovery.
pub record Round : Type 0 where
  pub grouped : Bool
  pub claimable : Bool
  pub claimed : List (Calls × StreamMessage)
  pub readable : Bool
  pub fresh : List (Calls × StreamMessage)
  pub recovered : Outcome
  pub now : Time
  pub recovered_at : Time

abbrev five_minutes : ℕ
five_minutes = 300000000000

module _ (codec : Codec) where
  abbrev pub until_error : (Bus → Bus × Bool) → Bus × Bool → Bus × Bool
  until_error next (b, true) = next b
  until_error next (b, false) = (b, false)

  -- for _, message := range messages, up to the first error.
  unfoldable pub process_all : List (Calls × StreamMessage) → Bus → Bus × Bool
  unfolding process
  process_all [] b = (b, true)
  process_all ((c, m) ∷ ms) b = until_error (process_all ms) (process codec c m b)

  abbrev pub with_tables : Bool → Option Tables → Bus → Bus × Bool
  with_tables fine none b = (b, false)
  with_tables fine (some t) b = (record b { tables = t }, fine)

  unfoldable pub recover : Outcome → Option Tables → Bus → Bus × Bool
  recover failed t b = (b, false)
  recover unanswered t b = with_tables false t b
  recover answered t b = with_tables true t b

  abbrev pub recovery : Round → Bus → Bus × Bool
  recovery r b =
      recover r.recovered
        (recover_attempts codec.terminal_event_id r.recovered_at (r.now - five_minutes) b.tables) b

  -- The messages that are read, and the recovery behind them.
  unfoldable pub read_fresh : Round → Bus → Bus × Bool
  unfolding process_all recover
  read_fresh r b =
      if r.readable then until_error (recovery r) (process_all r.fresh b) else (b, false)

  unfoldable pub run_once : Round → Bus → Bus × Bool
  unfolding process_all read_fresh
  run_once r b =
      if not r.grouped || not r.claimable
      then (b, false)
      else until_error (read_fresh r) (process_all r.claimed b)
