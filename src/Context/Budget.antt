-- ===== src/Context/Budget.antt =====
-- walrusos/engine/token_budget.py
use walrus_os.Base.{
  ℕ, ◌+◌, ◌-◌, ◌*◌, ◌/◌, ◌≤◌, String, ◌<>◌, ◌≡◌, ap, Bool, true, false, arith, length, leb, ltb,
  if◌then◌else◌,
}
use text.Mathlib.TextLemmas.{nil-append, cons-append}
use walrus_os.Replay.BlobId.{codes}

-- `len(text)`, in code points
abbrev pub text_length : String → ℕ
text_length text = length (codes text)

-- `max(1, len(text) // 4)`
abbrev pub at_least_one : ℕ → ℕ
at_least_one n = if ltb n 1 then 1 else n

unfoldable pub estimate_tokens : String → ℕ
estimate_tokens text = at_least_one (text_length text / 4)

pub record TokenBudget : Type 0 where
  pub max_tokens : ℕ
  pub used : ℕ

abbrev pub new_budget : ℕ → TokenBudget
new_budget max_tokens = record { max_tokens = max_tokens; used = 0 }

unfoldable pub can_fit : String → TokenBudget → Bool
can_fit text b = leb (b.used + estimate_tokens text) b.max_tokens

unfoldable pub add : String → TokenBudget → Bool × TokenBudget
add text b =
    let cost = estimate_tokens text in
    if leb (b.used + cost) b.max_tokens
    then (true, record b { used = b.used + cost })
    else (false, b)

-- What is left is below zero only if more is used than the budget has, which `add` never does.
unfoldable pub remaining : TokenBudget → ℕ
remaining b = b.max_tokens - b.used

quarter : (n : ℕ) → n ≤ 4 * (n / 4) + 3
quarter n = omega arith

-- A text has at most four characters for each token that it costs, and three more.
pub text_length-estimate_tokens : (text : String) → text_length text ≤ 4 * estimate_tokens text + 3
unfolding estimate_tokens
text_length-estimate_tokens text = ground (arith, quarter (text_length text))

pub estimate_tokens-pos : (text : String) → 1 ≤ estimate_tokens text
unfolding estimate_tokens
estimate_tokens-pos text = ground arith

pub codes-append : (s t : String) → text_length (s <> t) ≡ text_length s + text_length t
codes-append String.[] t = omega (arith, ap text_length (nil-append t))
codes-append (String.◌∷◌ c s) t =
    omega (arith, ap text_length (cons-append c s t), codes-append s t)
