-- ===== src/Relay/Timing.antt =====
-- src/relay.rs: when the half-close timer ends a session, told from the history of its polls.
use xtp_rs.Prelude.{
  Bool, List, [], any, ap, arith, false, if_elim, if◌then◌else◌, ltb, not, or_false-split, refl,
  true, ℕ, ◌&&◌, ◌+◌, ◌||◌, ◌∙◌, ◌∷◌, ◌≡◌,
}
use xtp_rs.Relay.{
  Flags, IoCall, Relay, Round, poll_read, poll_write, read_failed, read_pending, read_ready, rearm,
  track, track_all, write_failed, write_pending, write_ready,
}

-- The call moved bytes.
abbrev pub moves : IoCall → Bool
moves (poll_read before remaining (read_ready filled)) = ltb before filled
moves (poll_read before remaining read_pending) = false
moves (poll_read before remaining read_failed) = false
moves (poll_write (write_ready n)) = ltb 0 n
moves (poll_write write_pending) = false
moves (poll_write write_failed) = false

-- The call read nothing into a buffer with room: the end of the stream.
abbrev pub ends : IoCall → Bool
ends (poll_read before remaining (read_ready filled)) = not (ltb before filled) && ltb 0 remaining
ends (poll_read before remaining read_pending) = false
ends (poll_read before remaining read_failed) = false
ends (poll_write w) = false

track-activity : (c : IoCall) (f : Flags) → (track c f).activity ≡ (f.activity || moves c)
track-activity (poll_read before remaining (read_ready filled)) f = ground arith
track-activity (poll_read before remaining read_pending) f = ground arith
track-activity (poll_read before remaining read_failed) f = ground arith
track-activity (poll_write (write_ready n)) f = ground arith
track-activity (poll_write write_pending) f = ground arith
track-activity (poll_write write_failed) f = ground arith

track-eof : (c : IoCall) (f : Flags) → (track c f).eof ≡ (f.eof || ends c)
track-eof (poll_read before remaining (read_ready filled)) f = ground arith
track-eof (poll_read before remaining read_pending) f = ground arith
track-eof (poll_read before remaining read_failed) f = ground arith
track-eof (poll_write (write_ready n)) f = ground arith
track-eof (poll_write write_pending) f = ground arith
track-eof (poll_write write_failed) f = ground arith

pub not-false : (a : Bool) → not a ≡ false → a ≡ true
not-false a h = ground arith

or_assoc : (a b c : Bool) → ((a || b) || c) ≡ (a || (b || c))
or_assoc a b c = ground arith

pub track_all-activity :
    (cs : List IoCall) (f : Flags) → (track_all cs f).activity ≡ (f.activity || any moves cs)
unfolding track_all
track_all-activity [] f = ground arith
track_all-activity (c ∷ cs) f =
    track_all-activity cs (track c f)
    ∙ ap (λ b. b || any moves cs) (track-activity c f)
    ∙ or_assoc f.activity (moves c) (any moves cs)

pub track_all-eof : (cs : List IoCall) (f : Flags) → (track_all cs f).eof ≡ (f.eof || any ends cs)
unfolding track_all
track_all-eof [] f = ground arith
track_all-eof (c ∷ cs) f =
    track_all-eof cs (track c f)
    ∙ ap (λ b. b || any ends cs) (track-eof c f)
    ∙ or_assoc f.eof (ends c) (any ends cs)

module _ (grace : ℕ) where
  pub rearm-armed :
      (s : Relay) (now : ℕ) (moved : Bool)
      → ((rearm grace s now moved).armed ≡ true) × ((rearm grace s now moved).flags ≡ s.flags)
  rearm-armed s now moved =
      if_elim (λ (t : Relay). (t.armed ≡ true) × (t.flags ≡ s.flags)) (not s.armed || moved)
        (record s { deadline = now + grace; armed = true }) s (λ t. (refl, refl))
        (λ t. (not-false s.armed (or_false-split (not s.armed) moved t).0, refl))

module _ {R : Type 0} where
  -- Histories have the latest round first.
  abbrev pub saw_eof : List (Round R) → Bool
  saw_eof [] = false
  saw_eof (r ∷ rs) = saw_eof rs || any ends r.calls

  -- The last round in which bytes moved once a stream had ended, or in which it first ended.
  abbrev pub last_active : List (Round R) → ℕ
  last_active [] = 0
  last_active (r ∷ rs) = if not (saw_eof rs) || any moves r.calls then r.now else last_active rs
