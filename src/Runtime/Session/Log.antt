-- ===== src/Runtime/Session/Log.antt =====
-- `AgentSession.log`, called again and again.
use walrus_os.Base.{
  ℕ, zero, suc, ◌+◌, ◌-◌, ◌≤◌, String, ◌≡◌, refl, List, [], ◌∷◌, ◌++◌, arith, ltb, length, drop,
  length-append, length-drop, Bool-cases, inl, inr, ap, ◌∙◌, sym, map,
}
use walrus_os.Model.Value.{Payload}
use walrus_os.Runtime.Session.{Session, SessionActivity, trim, log}

module _ {A : Type 0} where
  drop-nil : (n : ℕ) → drop n (◌++◌ {A = A} [] []) ≡ []
  drop-nil zero = refl
  drop-nil (suc n) = refl

  drop-drop : (n m : ℕ) (xs : List A) → drop n (drop m xs) ≡ drop (m + n) xs
  drop-drop n zero xs = let same : n ≡ 0 + n = omega arith in ap (λ k. drop k xs) same
  drop-drop n (suc m) [] = drop-nil n ∙ sym (drop-nil (suc m + n))
  drop-drop n (suc m) (x ∷ xs) =
      let same : suc (m + n) ≡ suc m + n = omega arith in
      drop-drop n m xs ∙ ap (λ k. drop k (x ∷ xs)) same

  drop-append : (n : ℕ) (xs ys : List A) → n ≤ length xs → drop n (xs ++ ys) ≡ drop n xs ++ ys
  drop-append zero xs ys h = refl
  drop-append (suc n) [] ys h = absurd (omega arith)
  drop-append (suc n) (x ∷ xs) ys h = drop-append n xs ys (omega arith)

-- The last twenty entries
abbrev pub last_twenty : List SessionActivity → List SessionActivity
last_twenty xs = drop (length xs - 20) xs

trim-last : (xs : List SessionActivity) → trim xs ≡ last_twenty xs
unfolding trim
trim-last xs = elim (Bool-cases (ltb 20 (length xs))) [
  | inl h ↦ rw h refl
  | inr h ↦
      let none_over : 0 ≡ length xs - 20 = ground arith in rw h (ap (λ k. drop k xs) none_over)
]

append_nil : (xs : List SessionActivity) → xs ++ [] ≡ xs
append_nil [] = refl
append_nil (x ∷ xs) = ap (λ r. x ∷ r) (append_nil xs)

-- Trimming before more is added does not change what is kept.
window :
    (xs ys : List SessionActivity) → last_twenty (last_twenty xs ++ ys) ≡ last_twenty (xs ++ ys)
window xs ys = elim (Bool-cases (ltb 20 (length xs))) [
  | inl h ↦
      let over : ℕ = length xs - 20 in
      let inside : over ≤ length xs = ground arith in
      let kept : length (drop over xs ++ ys) - 20 ≡ length ys =
        ground (arith, length-append (drop over xs) ys, length-drop over xs) in
      let all : over + length ys ≡ length (xs ++ ys) - 20 = ground (arith, length-append xs ys) in
      ap (λ k. drop k (drop over xs ++ ys)) kept
      ∙ ap (drop (length ys)) (sym (drop-append over xs ys inside))
      ∙ drop-drop (length ys) over (xs ++ ys)
      ∙ ap (λ k. drop k (xs ++ ys)) all
  | inr h ↦
      let none_over : length xs - 20 ≡ 0 = ground arith in
      ap (λ k. last_twenty (drop k xs ++ ys)) none_over
]

-- The arguments of a call of `log`, with the two readings of the clock.
pub record Entry : Type 0 where
  pub action : String
  pub detail : String
  pub metadata : Payload
  pub created : ℕ
  pub now : ℕ

abbrev pub activity : Entry → SessionActivity
activity e = record {
  timestamp = e.created;
  action = e.action;
  detail = e.detail;
  metadata = e.metadata;
}

-- One call of `log` after the other.
abbrev pub log_all : List Entry → Session → Session
log_all [] s = s
log_all (e ∷ es) s = log_all es (log e.action e.detail e.metadata e.created e.now s)

append_assoc :
    (xs : List SessionActivity) (y : SessionActivity) (zs : List SessionActivity)
    → (xs ++ y ∷ []) ++ zs ≡ xs ++ (y ∷ zs)
append_assoc [] y zs = refl
append_assoc (x ∷ xs) y zs = ap (λ r. x ∷ r) (append_assoc xs y zs)

log_all-last :
    (es : List Entry) (s : Session)
    → last_twenty (log_all es s).activity_log ≡ last_twenty (s.activity_log ++ map activity es)
unfolding log
log_all-last [] s = ap last_twenty (sym (append_nil s.activity_log))
log_all-last (e ∷ es) s =
    let s' : Session = log e.action e.detail e.metadata e.created e.now s in
    log_all-last es s'
    ∙ ap (λ xs. last_twenty (xs ++ map activity es)) (trim-last (s.activity_log ++ activity e ∷ []))
    ∙ window (s.activity_log ++ activity e ∷ []) (map activity es)
    ∙ ap last_twenty (append_assoc s.activity_log (activity e) (map activity es))

length-last_twenty : (xs : List SessionActivity) → length (last_twenty xs) ≤ 20
length-last_twenty xs = omega (arith, length-drop (length xs - 20) xs)

short-last : (xs : List SessionActivity) → length xs ≤ 20 → last_twenty xs ≡ xs
short-last xs h = let none_over : length xs - 20 ≡ 0 = omega arith in ap (λ k. drop k xs) none_over

log_all-short :
    (es : List Entry) (s : Session)
    → length s.activity_log ≤ 20
    → length (log_all es s).activity_log ≤ 20
unfolding log
log_all-short [] s h = h
log_all-short (e ∷ es) s h =
    let s' : Session = log e.action e.detail e.metadata e.created e.now s in
    log_all-short es s' (
      rw (trim-last (s.activity_log ++ activity e ∷ []))
        (length-last_twenty (s.activity_log ++ activity e ∷ [])))

-- Whatever is logged in a session whose log has at most twenty entries, the log is the last twenty
-- of its old entries and the new ones, in order.
log_all_lem :
    (es : List Entry) (s : Session)
    → length s.activity_log ≤ 20
    → (log_all es s).activity_log ≡ last_twenty (s.activity_log ++ map activity es)
log_all_lem es s h =
    sym (short-last (log_all es s).activity_log (log_all-short es s h)) ∙ log_all-last es s
