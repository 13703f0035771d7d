-- ===== src/Walrus/Roundtrip.antt =====
-- `store_blob` and then `retrieve_blob`, for payloads of every size.
use walrus_os.Base.{
  ℕ, suc, ◌<◌, String, ◌<>◌, ◌≡◌, refl, ap, sym, ◌∙◌, Bool, true, false, none, List, length,
  if◌then◌else◌, ltb, Bool-cases, inl, inr,
}
use walrus_os.Base.Result.{Result, ok, or_else, after}
use walrus_os.Sqlite.Tables.{Json}
use walrus_os.Walrus.Network.{Service}
use walrus_os.Walrus.Crypt.{Aead}
use walrus_os.Walrus.Sealed.{Usable}
use walrus_os.Walrus.Adapter.{
  Adapter, Codec, chunks, chunk_count, upload, chunked_upload, store_blob, retrieve_blob,
  known_chunks, with_manifest, with_metadata,
}
use walrus_os.Walrus.Chunks.{joined-chunks}
use walrus_os.Walrus.Stored.{IsReliable, upload-At, upload_all-Each, Each-Kept}
use walrus_os.Walrus.Retrieved.{IsLossless, retrieve-At, retrieve-chunked, put_down}

module _ {W : Type 0} (s : Service W) (c : Aead) (z : Codec) (json : Json) (size : ℕ)
    (nonces : ℕ → List ℕ) (now mime_type : String) (payload : List ℕ) (a : Adapter W) where
  abbrev stored : Result String × Adapter W
  stored = store_blob s c z json size nonces now mime_type payload a

  store_blob-case :
      (b : Bool) (id : String) (d : Adapter W)
      → ltb size (length payload) ≡ b
      → (if b
          then chunked_upload s c z json size nonces now mime_type payload a
          else upload s c z json (nonces 0) payload a)
        ≡ (ok id, d)
      → stored ≡ (ok id, with_metadata s c z json id mime_type (length payload) now d)
  unfolding store_blob
  store_blob-case b id d test done =
      ap
        (λ v.
          after
            (if v
              then chunked_upload s c z json size nonces now mime_type payload a
              else upload s c z json (nonces 0) payload a)
            (λ i e. (ok i, with_metadata s c z json i mime_type (length payload) now e)))
        test
      ∙ ap
          (λ v.
            after v (λ i e. (ok i, with_metadata s c z json i mime_type (length payload) now e)))
          done

  abbrev Back : Type 0
  Back =
      (id : String) × (d : Adapter W) × (stored ≡ (ok id, d))
      × ((n : ℕ) (later : String)
          → (retrieve_blob s c z json (suc (suc n)) later id d).0 ≡ ok payload)

  module _ (l : IsLossless z json) (r : IsReliable s) (u : Usable c a.keys nonces) where
    back_whole : ltb size (length payload) ≡ false → Back
    back_whole test =
        let p = upload-At s c z json a.keys nonces r u 0 payload a refl in
        let d =
          with_metadata s c z json p.0 mime_type (length payload) now (record a { world = p.1 }) in
        (
          p.0,
          d,
          store_blob-case false p.0 (record a { world = p.1 }) test p.2,
          λ n later.
              ap (λ v. v.0)
                (retrieve-At s c z json a.keys nonces l (suc n) later p.0 payload d refl p.4),
        )

    back_chunked :
        0 < size
        → known_chunks s c z json (or_else stored.0 "") a.sqlite ≡ ok none
        → ltb size (length payload) ≡ true
        → Back
    unfolding chunked_upload
    back_chunked pos unlisted test =
        let parts = chunks size (chunk_count size payload) payload in
        let q = upload_all-Each s c z json a.keys nonces r u parts a refl in
        let m =
          upload-At s c z json a.keys nonces r u (length parts) (z.dumps_manifest q.0 mime_type)
            (record a { world = q.1 }) refl in
        let id = "manifest:" <> m.0 in
        let b = record a { world = m.1 } in
        let done : stored
            ≡ (ok id, put_down s c z json a.keys nonces l now mime_type (length payload) id q.0 b) =
          store_blob-case true id (with_manifest s c z json id q.0 (length payload) mime_type now b)
            test
            (ap
                (λ v. after v (λ ids e.
                  after
                    (upload s c z json (nonces (length parts)) (z.dumps_manifest ids mime_type) e)
                    (λ i f. (
                      ok ("manifest:" <> i),
                      with_manifest s c z json ("manifest:" <> i) ids (length payload) mime_type now
                          f,
                    ))))
                q.2
              ∙ ap
                  (λ v. after v (λ i f. (
                    ok ("manifest:" <> i),
                    with_manifest s c z json ("manifest:" <> i) q.0 (length payload) mime_type now
                        f,
                  )))
                  m.2) in
        (
          id,
          put_down s c z json a.keys nonces l now mime_type (length payload) id q.0 b,
          done,
          λ n later.
              retrieve-chunked s c z json a.keys nonces l n now later m.0 mime_type (length payload)
                q.0 parts b refl
                (sym (ap (λ v. known_chunks s c z json (or_else v.0 "") a.sqlite) done) ∙ unlisted)
                m.4 (Each-Kept s c z json a.keys nonces q.1 m.1 q.0 parts m.3 q.4)
              ∙ ap ok (joined-chunks size payload pos),
        )

    -- On a reliable network, if compression and JSON lose nothing, the keyring is usable with the
    -- nonces drawn, the chunk size is not zero and the manifest table does not list the new id yet, a
    -- payload of any size is stored, and then retrieved unchanged, whether the adapter keeps a
    -- manifest table or not.
    pub retrieve_blob-store_blob :
        0 < size
        → known_chunks s c z json (or_else stored.0 "") a.sqlite ≡ ok none
        → (id : String) × (d : Adapter W) × (store_blob s c z json size nonces now mime_type payload
              a
            ≡ (ok id, d))
          × ((n : ℕ) (later : String)
              → (retrieve_blob s c z json (suc (suc n)) later id d).0 ≡ ok payload)
    retrieve_blob-store_blob pos unlisted = elim (Bool-cases (ltb size (length payload))) [
      | inl big ↦ back_chunked pos unlisted big
      | inr small ↦ back_whole small
    ]
