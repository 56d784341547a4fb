-- ===== src/Relay.antt =====
-- src/relay.rs: the half-close timer round `copy_bidirectional`. One poll of the future is one round: the
-- calls of the streams that the copy makes in it, what the copy answers, and the instant. The copy
-- and the timer are tokio's: `elapsed deadline now` is whether the timer is ready.
pub mod Timing
pub mod Answer
use xtp_rs.Prelude.{
  Bool, List, Option, [], false, if◌then◌else◌, ltb, none, not, some, true, ℕ, ◌+◌, ◌||◌, ◌∷◌,
}

pub data ReadPoll : Type 0 where
  read_pending read_failed : ReadPoll
  -- How much of the buffer is filled afterwards.
  read_ready : ℕ → ReadPoll

pub data WritePoll : Type 0 where
  write_pending write_failed : WritePoll
  write_ready : ℕ → WritePoll

-- A call on either stream: a read with what the buffer held and had room for, or a write.
pub data IoCall : Type 0 where
  poll_read : ℕ → ℕ → ReadPoll → IoCall
  poll_write : WritePoll → IoCall

pub record Flags : Type 0 where
  pub eof : Bool
  pub activity : Bool

abbrev pub track_read : ℕ → ℕ → ReadPoll → Flags → Flags
track_read before remaining (read_ready filled) f =
    if ltb before filled
    then record f { activity = true }
    else if ltb 0 remaining
    then record f { eof = true }
    else f
track_read before remaining read_pending f = f
track_read before remaining read_failed f = f

abbrev pub track_write : WritePoll → Flags → Flags
track_write (write_ready n) f = if ltb 0 n then record f { activity = true } else f
track_write write_pending f = f
track_write write_failed f = f

abbrev pub track : IoCall → Flags → Flags
track (poll_read before remaining result) f = track_read before remaining result f
track (poll_write result) f = track_write result f

unfoldable pub track_all : List IoCall → Flags → Flags
track_all [] f = f
track_all (c ∷ cs) f = track_all cs (track c f)

pub record Round (R : Type 0) : Type 0 where
  pub calls : List IoCall
  pub copied : Option R
  pub now : ℕ

pub record Relay : Type 0 where
  pub flags : Flags
  pub armed : Bool
  pub deadline : ℕ

pub data RelayPoll (R : Type 0) : Type 0 where
  still_pending half_close_timeout : RelayPoll R
  finished : R → RelayPoll R

abbrev pub new_relay : ℕ → ℕ → Relay
new_relay grace now = record {
  flags = record { eof = false; activity = false };
  armed = false;
  deadline = now + grace;
}

module _ (grace : ℕ) where
  -- The timer is set again when it is first needed and after bytes have moved.
  abbrev pub rearm : Relay → ℕ → Bool → Relay
  rearm s now moved =
      if not s.armed || moved then record s { deadline = now + grace; armed = true } else s

module _ {R : Type 0} (elapsed : ℕ → ℕ → Bool) (grace : ℕ) where
  abbrev pub poll_timer : Relay → ℕ → RelayPoll R × Relay
  poll_timer s now = (if elapsed s.deadline now then half_close_timeout else still_pending, s)

  -- After the copy, with the activity of this poll taken out of the flags.
  abbrev pub after_copy : Relay → Flags → ℕ → RelayPoll R × Relay
  after_copy s f now =
      let taken = record s { flags = record f { activity = false } } in
      if not f.eof
      then (still_pending, taken)
      else poll_timer (rearm grace taken now f.activity) now

  abbrev pub poll_copied : Relay → Flags → ℕ → Option R → RelayPoll R × Relay
  poll_copied s f now (some r) = (finished r, record s { flags = f })
  poll_copied s f now none = after_copy s f now

  unfoldable pub poll_relay : Relay → Round R → RelayPoll R × Relay
  unfolding track_all
  poll_relay s r = poll_copied s (track_all r.calls s.flags) r.now r.copied
