-- ===== src/Crypto/ReplayWindow.antt =====
-- crypto/aead.ts: the sliding window of sequence numbers that a receiver has accepted.
pub mod Slots
pub mod History
pub mod Refinement
use fuck_chat_control.Base.{
  ℕ, zero, suc, ◌+◌, ◌-◌, Bool, true, Option, none, some, List, [], ◌∷◌, if◌then◌else◌, ltb, leb,
  ◌==◌, length, get_or, set, replicate,
}
use fuck_chat_control.Base.Result.{Result, ok, err}
use fuck_chat_control.Protocol.Limits.{uint32_max}

pub data CryptoErrorCode : Type 0 where
  invalid_argument authentication_failed replay_duplicate replay_stale : CryptoErrorCode
  wrong_passphrase identity_not_in_transcript : CryptoErrorCode

-- `highest` is `none` for -1; `slots` has `size` bytes, slot j for the sequence `highest - j`.
pub record ReplayWindow : Type 0 where
  pub size : ℕ
  pub highest : Option ℕ
  pub slots : List ℕ

unfoldable pub new_window : ℕ → Result CryptoErrorCode ReplayWindow
new_window size =
    if size == 0
    then err invalid_argument
    else ok (record { size = size; highest = none; slots = replicate size 0 })

-- `for (i = n - 1; i >= 0; i--) slots[i + advance] = slots[i]`.
unfoldable pub shift : ℕ → ℕ → List ℕ → List ℕ
shift zero advance slots = slots
shift (suc i) advance slots = shift i advance (set slots (i + advance) (get_or slots i 0))

-- `for (i = 0; i < n; i++) slots[i] = 0`.
unfoldable pub clear : ℕ → List ℕ → List ℕ
clear zero slots = slots
clear (suc i) slots = set (clear i slots) i 0

unfoldable pub advance_by : ℕ → ℕ → List ℕ → List ℕ
unfolding shift clear
advance_by size advance slots =
    if leb size advance
    then replicate size 0
    else clear advance (shift (size - advance) advance slots)

-- `sequence - highest`.
abbrev pub distance : Option ℕ → ℕ → ℕ
distance none sequence = sequence + 1
distance (some h) sequence = sequence - h

abbrev pub is_above : Option ℕ → ℕ → Bool
is_above none sequence = true
is_above (some h) sequence = ltb h sequence

abbrev pub behind : Option ℕ → ℕ → ℕ
behind none sequence = 0
behind (some h) sequence = h - sequence

abbrev pub move_up : ReplayWindow → ℕ → ReplayWindow
move_up w sequence = record w {
  highest = some sequence;
  slots = set (advance_by w.size (distance w.highest sequence) w.slots) 0 1;
}

unfoldable pub observe : ReplayWindow → ℕ → Result CryptoErrorCode ReplayWindow
unfolding advance_by
observe w sequence =
    if ltb uint32_max sequence
    then err invalid_argument
    else if is_above w.highest sequence
    then ok (move_up w sequence)
    else if leb w.size (behind w.highest sequence)
    then err replay_stale
    else if get_or w.slots (behind w.highest sequence) 0 == 1
    then err replay_duplicate
    else ok (record w { slots = set w.slots (behind w.highest sequence) 1 })
