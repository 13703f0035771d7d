-- ===== src/Context/Since.antt =====
-- Which events a checkpoint summarizes, and that it repeats no sentence.
use walrus_os.Base.{
  All-append, String, ◌≡◌, refl, ap, sym, ◌∙◌, true, false, Option, List, [], ◌∷◌, ◌++◌, arith, All,
}
use mathlib.Core.List.{
  reverse, reverse-append, reverse-reverse, append-nil, append_assoc, reverse-cons,
}
use walrus_os.Model.Value.{Value}
use walrus_os.Context.Entry.{Entry}
use walrus_os.Context.Recall.{is_checkpoint}
use walrus_os.Context.Bound.{unrepeated, unrepeated-append}
use walrus_os.Context.Summary.{back_to_checkpoint, uncheckpointed, sentences, public_text}

split :
    (before after : List Entry) (cp : Entry)
    → reverse (before ++ cp ∷ after) ≡ reverse after ++ cp ∷ reverse before
split before after cp =
    reverse-append before (cp ∷ after)
    ∙ ap (λ r. r ++ reverse before) (reverse-cons cp after)
    ∙ append_assoc (reverse after) (cp ∷ []) (reverse before)

All-reverse : (P : Entry → Type 0) (xs : List Entry) → All P xs → All P (reverse xs)
All-reverse P [] h = tt
All-reverse P (x ∷ xs) h =
    rw (reverse-cons x xs) (All-append P (reverse xs) (x ∷ []) (All-reverse P xs h.1) (h.0, tt))

module _ (show : Value → Option String) (first_sentence : String → String) where
  back_past :
      (es recent rest : List Entry) (cp : Entry)
      → All (λ e. is_checkpoint e ≡ false) es
      → is_checkpoint cp ≡ true
      → back_to_checkpoint show first_sentence (es ++ cp ∷ rest) recent ≡ recent ++ es
  unfolding back_to_checkpoint
  back_past [] recent rest cp h p = rw p (sym (append-nil recent))
  back_past (e ∷ es) recent rest cp h p =
      rw (h.0) (back_past es (recent ++ e ∷ []) rest cp h.1 p ∙ append_assoc recent (e ∷ []) es)

  back_to_start :
      (es recent : List Entry)
      → All (λ e. is_checkpoint e ≡ false) es
      → back_to_checkpoint show first_sentence es recent ≡ recent ++ es
  unfolding back_to_checkpoint
  back_to_start [] recent h = sym (append-nil recent)
  back_to_start (e ∷ es) recent h =
      rw (h.0) (back_to_start es (recent ++ e ∷ []) h.1 ∙ append_assoc recent (e ∷ []) es)

  sentences-unrepeated :
      (es : List Entry) (seen : List String)
      → unrepeated seen ≡ true
      → unrepeated (sentences show first_sentence es seen) ≡ true
  unfolding sentences
  sentences-unrepeated [] seen h = h
  sentences-unrepeated (e ∷ es) seen h = sentences-unrepeated es _ (
      ground
        (arith, unrepeated-append (first_sentence (public_text show first_sentence e.1)) seen, h))

  -- The events after the last checkpoint of a timeline, or all events if it has none, are those that
  -- a new checkpoint summarizes, and it has no sentence twice.
  pub uncheckpointed_lem :
      (before after : List Entry) (cp : Entry)
      → All (λ e. is_checkpoint e ≡ false) after
      → is_checkpoint cp ≡ true
      → (uncheckpointed show first_sentence (before ++ cp ∷ after) ≡ after)
        × (uncheckpointed show first_sentence after ≡ after)
        × (unrepeated (sentences show first_sentence after []) ≡ true)
  unfolding uncheckpointed
  uncheckpointed_lem before after cp h p = (
    ap (λ r. reverse (back_to_checkpoint show first_sentence r [])) (split before after cp)
        ∙ ap reverse (back_past (reverse after) [] (reverse before) cp (All-reverse _ after h) p)
        ∙ reverse-reverse after,
    ap reverse (back_to_start (reverse after) [] (All-reverse _ after h)) ∙ reverse-reverse after,
    sentences-unrepeated after [] refl,
  )
