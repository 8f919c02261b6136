-- ===== src/Speaking/Round/Conserved.antt =====
-- Which messages a round of `speak` keeps, and which it loses.
use opentts.Prelude.{ℕ, ◌≡◌, ◌⊎◌, Bool, true, false, Option, some}
use opentts.Prelude.Int.{ℤ}
use opentts.Types.{Bytes, Server}
use opentts.Speaking.Select.{get_message_from_queues}
use opentts.Speaking.Round.{is_zero, output_speak, insert_marks}
use opentts.Speaking.Round.Accounts.{places, Missing}

module _ (isspace : Bytes → Bool) (module_of : Server → ℕ → Option ℕ)
    (deliver : Server → ℕ → ℤ × Bool) where
  -- Why the message `p` may be missing: `output_speak` did not return 0 for it as it was when it had
  -- got its marks, and it did not become
  -- the current message; or it did, and the flag of an earlier pause is still set.
  abbrev pub Unheld : ℕ → Server → Server → Type 0
  Unheld p s t =
      ((x : Server) × (insert_marks isspace p (get_message_from_queues s).1 ≡ some x)
        × (is_zero (output_speak module_of deliver p x).0 ≡ false)
        × (t.current_message ≡ s.current_message))
      ⊎ ((t.current_message ≡ some p) × ((s.messages p).settings.paused_while_speaking ≡ true))

  -- All addresses are where they are looked for, or the message that was taken is missing.
  abbrev pub Accounted : Server → Server → Type 0
  Accounted s t =
      ((a : ℕ) → places a t ≡ places a s)
      ⊎ ((p : ℕ) × ((get_message_from_queues s).0 ≡ some p) × Missing p s t × Unheld p s t)
