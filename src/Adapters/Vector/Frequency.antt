-- ===== src/Adapters/Vector/Frequency.antt =====
-- The document frequencies are exact: the invariant of the index.
use walrus_os.Base.{
  Bool-cases, ℕ, ◌+◌, ◌-◌, String, ◌≡◌, some, List, [], ◌∷◌, arith, eq_iff, ◌==◌, if◌then◌else◌,
  Option-cases, inl, inr,
}
use walrus_os.Base.Dict.{Dict, lookup, insert, pop, lookup-insert, has_key}
use walrus_os.Base.Dict.Unique.{
  Unique, insert-Unique, pop-Unique, sum, part, sum-insert, sum-pop, part-le-sum,
}
use walrus_os.Model.Value.{Payload}
use walrus_os.Adapters.Vector.{
  Vector, Doc, count_at, count_terms, lower, raise_terms, lower_old, make_doc, put, upsert, delete,
}

-- Whether a term is in a document, as 0 or 1.
abbrev pub has : String → Dict ℕ → ℕ
has t tf = if has_key t tf then 1 else 0

abbrev in_doc : String → Doc → ℕ
in_doc t doc = has t doc.counts

-- In how many documents of the index a term occurs.
abbrev pub docs_with : String → Dict Doc → ℕ
docs_with t index = sum (in_doc t) index

count_at-lower :
    (t : String) (tf df : Dict ℕ) → Unique tf → count_at t (lower tf df) ≡ count_at t df - has t tf
unfolding lower lookup
count_at-lower t [] df u = omega arith
count_at-lower t ((k, n) ∷ tf) df u = ground (
  arith,
  count_at-lower t tf (insert k (count_at k df - 1) df) u.1,
  lookup-insert k t (count_at k df - 1) df,
  eq_iff k t,
  u.0,
)

count_at-raise_terms :
    (t : String) (tf df : Dict ℕ)
    → Unique tf
    → count_at t (raise_terms tf df) ≡ count_at t df + has t tf
unfolding raise_terms lookup
count_at-raise_terms t [] df u = omega arith
count_at-raise_terms t ((k, n) ∷ tf) df u = ground (
  arith,
  count_at-raise_terms t tf (insert k (count_at k df + 1) df) u.1,
  lookup-insert k t (count_at k df + 1) df,
  eq_iff k t,
  u.0,
)

count_terms-Unique : (ts : List String) (d : Dict ℕ) → Unique d → Unique (count_terms ts d)
unfolding count_terms
count_terms-Unique [] d u = u
count_terms-Unique (t ∷ ts) d u =
    count_terms-Unique ts (insert t (count_at t d + 1) d) (insert-Unique t (count_at t d + 1) d u)

abbrev EachUnique : Dict Doc → Type 0
EachUnique [] = Unit
EachUnique ((k, doc) ∷ d) = Unique doc.counts × EachUnique d

-- No document and no term is listed twice, and each frequency is the number of documents.
pub record IsExact (v : Vector) : Type 0 where
  pub unique : Unique v.index
  pub terms : EachUnique v.index
  pub exact : (t : String) → count_at t v.doc_freq ≡ docs_with t v.index

insert-EachUnique :
    (k : String) (doc : Doc) (d : Dict Doc)
    → Unique doc.counts
    → EachUnique d
    → EachUnique (insert k doc d)
unfolding insert
insert-EachUnique k doc [] u h = (u, tt)
insert-EachUnique k doc ((j, w) ∷ d) u h = ground (arith, insert-EachUnique k doc d u h.1, u, h)

pop-EachUnique : (k : String) (d : Dict Doc) → EachUnique d → EachUnique (pop k d)
unfolding pop
pop-EachUnique k [] h = tt
pop-EachUnique k ((j, w) ∷ d) h = ground (arith, pop-EachUnique k d h.1, h)

lookup-Unique :
    (k : String) (doc : Doc) (d : Dict Doc)
    → EachUnique d
    → lookup k d ≡ some doc
    → Unique doc.counts
unfolding lookup
lookup-Unique k doc [] h e = cc
lookup-Unique k doc ((j, w) ∷ d) h e = elim (Bool-cases (j == k)) [
  | inl p ↦ let same : w ≡ doc = ground arith in rw (← same) h.0
  | inr p ↦ lookup-Unique k doc d h.1 (ground arith)
]

count_at-lower_old :
    (t k : String) (df : Dict ℕ) (d : Dict Doc)
    → EachUnique d
    → count_at t (lower_old (lookup k d) df) ≡ count_at t df - part (in_doc t) (lookup k d)
count_at-lower_old t k df d h = elim (Option-cases (lookup k d)) [
  | inl e ↦ rw e (omega arith)
  | inr (doc, e) ↦ rw e (count_at-lower t doc.counts df (lookup-Unique k doc d h e))
]

put-IsExact :
    (k : String) (doc : Doc) (v : Vector) → Unique doc.counts → IsExact v → IsExact (put k doc v)
unfolding put
put-IsExact k doc v u h = record {
  unique = insert-Unique k doc v.index h.unique;
  terms = insert-EachUnique k doc v.index u h.terms;
  exact = λ t. omega (
    arith,
    count_at-raise_terms t doc.counts (lower_old (lookup k v.index) v.doc_freq) u,
    count_at-lower_old t k v.doc_freq v.index h.terms,
    h.exact t,
    sum-insert (in_doc t) k doc v.index,
    part-le-sum (in_doc t) k v.index,
  );
}

pub upsert-IsExact :
    (tokenize : String → List String) (k text : String) (metadata : Payload) (v : Vector)
    → IsExact v
    → IsExact (upsert tokenize k text metadata v)
unfolding upsert
upsert-IsExact tokenize k text metadata v h = by_tokens (tokenize text)
  where
    by_tokens :
        (ts : List String)
        → IsExact (elim ts [ [] ↦ v | t ∷ r ↦ put k (make_doc (t ∷ r) text metadata) v ])
    by_tokens [] = h
    by_tokens (t ∷ ts) =
        put-IsExact k (make_doc (t ∷ ts) text metadata) v (count_terms-Unique (t ∷ ts) [] tt) h

delete-IsExact : (k : String) (v : Vector) → IsExact v → IsExact (delete k v)
unfolding delete
delete-IsExact k v h = record {
  unique = pop-Unique k v.index h.unique;
  terms = pop-EachUnique k v.index h.terms;
  exact = λ t. omega (
    arith,
    count_at-lower_old t k v.doc_freq v.index h.terms,
    h.exact t,
    sum-pop (in_doc t) k v.index h.unique,
  );
}

-- Adding, replacing and removing a document keep the index without repeated documents or terms, and
-- every document frequency equal to the number of documents that have the term.
pub changes-IsExact :
    (tokenize : String → List String) (k text : String) (metadata : Payload) (v : Vector)
    → IsExact v
    → IsExact (upsert tokenize k text metadata v) × IsExact (delete k v)
changes-IsExact tokenize k text metadata v h =
    (upsert-IsExact tokenize k text metadata v h, delete-IsExact k v h)
