-- ===== src/Adapters/Vector.antt =====
-- `InMemoryVector`: the documents with the counts of their terms, and for each term the number of
-- documents that have it. The weights of a search are floats and are left out.
pub mod Frequency
use walrus_os.Base.{ℕ, ◌+◌, ◌-◌, String, Option, none, some, List, [], ◌∷◌, length, or_default}
use walrus_os.Base.Dict.{Dict, lookup, insert, pop}
use walrus_os.Model.Value.{Payload}

-- A document: how often each term occurs (the float `tf[t]` is that number over `total`).
pub record Doc : Type 0 where
  pub counts : Dict ℕ
  pub total : ℕ
  pub text : String
  pub metadata : Payload

pub record Vector : Type 0 where
  pub index : Dict Doc
  pub doc_freq : Dict ℕ

abbrev pub empty : Vector
empty = record { index = []; doc_freq = [] }

-- An entry of a `defaultdict(int)`
abbrev pub count_at : String → Dict ℕ → ℕ
count_at t d = or_default (lookup t d) 0

-- The loop of `_tf`
unfoldable pub count_terms : List String → Dict ℕ → Dict ℕ
count_terms [] d = d
count_terms (t ∷ ts) d = count_terms ts (insert t (count_at t d + 1) d)

-- `for term in old["tf"]: self._doc_freq[term] = max(0, self._doc_freq[term] - 1)`
unfoldable pub lower : Dict ℕ → Dict ℕ → Dict ℕ
lower [] df = df
lower ((t, n) ∷ tf) df = lower tf (insert t (count_at t df - 1) df)

-- `for term in tf: self._doc_freq[term] += 1`
unfoldable pub raise_terms : Dict ℕ → Dict ℕ → Dict ℕ
raise_terms [] df = df
raise_terms ((t, n) ∷ tf) df = raise_terms tf (insert t (count_at t df + 1) df)

abbrev pub lower_old : Option Doc → Dict ℕ → Dict ℕ
lower_old none df = df
lower_old (some doc) df = lower doc.counts df

-- `tokens` is `_tokenize(text)`, which is the regular expressions' and `split`'s work.
abbrev pub make_doc : List String → String → Payload → Doc
make_doc tokens text metadata = record {
  counts = count_terms tokens [];
  total = length tokens;
  text = text;
  metadata = metadata;
}

unfoldable pub put : String → Doc → Vector → Vector
unfolding lower raise_terms
put doc_id doc v = record {
  index = insert doc_id doc v.index;
  doc_freq = raise_terms doc.counts (lower_old (lookup doc_id v.index) v.doc_freq);
}

module _ (tokenize : String → List String) where
  unfoldable pub upsert : String → String → Payload → Vector → Vector
  unfolding put count_terms
  upsert doc_id text metadata v = elim (tokenize text) [
    | [] ↦ v
    | t ∷ ts ↦ put doc_id (make_doc (t ∷ ts) text metadata) v
  ]

unfoldable pub delete : String → Vector → Vector
unfolding lower
delete doc_id v = record {
  index = pop doc_id v.index;
  doc_freq = lower_old (lookup doc_id v.index) v.doc_freq;
}
