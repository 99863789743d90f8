-- ===== src/Audit/Verdict.antt =====
-- What a passing audit proves of the entries, and what its exit status says.
use atlasmirror.Prelude.{
  ℕ, ◌+◌, ◌<◌, ◌≤◌, ◌≡◌, inl, inr, refl, ◌∙◌, ap, Text, true, false, arith, codes, text_eq,
  text_eq_sound, lower,
}
use atlasmirror.Prelude.{
  Option, none, some, List, [], ◌∷◌, ◌++◌, length, length-append, All, map, Option-cases,
}
use atlasmirror.Dict
use atlasmirror.Dict.{Dict}
use atlasmirror.Hashing.{Hashlib, file_md5}
use atlasmirror.Manifest.{Entry, Retrieval, opt_text_eq, count_countries}
use atlasmirror.Manifest.Texts.{add, distinct, distinct_onto}
use atlasmirror.Catalog.{CatalogEntry}
use atlasmirror.Onchain.{Record, Records}
use atlasmirror.Audit.Counts.{IsCounted, audit_loop-IsCounted}
use atlasmirror.Audit.{
  Progress, Mismatch, mismatch, level_text, or_empty, candidates, local_candidate, retrieved,
  byte_proof, hier_match, storage_byte_pass, compare_entry, audit_entry, audit_loop, audit,
  summarise, counting_entries, start, pass, fail,
}

-- An entry's bytes are vouched for by a file of its size and MD5, or only by the manifest's record
-- of a verified retrieval with that MD5.
pub data IsVouched (M : Hashlib) (file : Text → Option (List ℕ)) (e : Entry) : Type 0 where
  cached :
      (path : Text) (bytes : List ℕ)
      → file path ≡ some bytes
      → length bytes ≡ e.size
      → file_md5 M bytes ≡ e.geofabrik_md5
      → IsVouched M file e
  peer :
      (r : Retrieval)
      → e.external_retrieval ≡ some r
      → r.status ≡ some (codes "VERIFIED_EXACT_MATCH")
      → r.retrieved_md5 ≡ some e.geofabrik_md5
      → IsVouched M file e

pub record IsVerified (M : Hashlib) (file : Text → Option (List ℕ)) (catalog : Dict CatalogEntry)
    (onchain : Records) (e : Entry) : Type 0 where
  pub c : CatalogEntry
  pub o : Record
  pub in_catalog : Dict.get e.region catalog ≡ some c
  pub on_chain : Dict.get e.region onchain ≡ some o
  pub cid : o.cid ≡ e.cid
  pub checksum : o.checksum ≡ e.geofabrik_md5
  pub level : lower (level_text o.level) ≡ lower c.level
  pub parent : or_empty o.parent ≡ or_empty c.parent
  pub bytes : IsVouched M file e

opt_text_eq_sound : (o : Option Text) (t : Text) → opt_text_eq o t ≡ true → o ≡ some t
unfolding opt_text_eq
opt_text_eq_sound none t h = ground arith
opt_text_eq_sound (some s) t h = ap some (text_eq_sound s t h)

or_empty-some :
    (o : Option Text) (t : Text)
    → text_eq (or_empty o) [] ≡ false
    → text_eq (or_empty o) t ≡ true
    → o ≡ some t
unfolding or_empty text_eq
or_empty-some none t n h = ground arith
or_empty-some (some s) t n h = ap some (text_eq_sound s t h)

not_clean : (ms : List Mismatch) (m : Mismatch) → length (ms ++ (m ∷ [])) ≡ 0 → ⊥
not_clean ms m h = omega (arith, length-append ms (m ∷ []))

module _ (M : Hashlib) (file : Text → Option (List ℕ)) where
  local_candidate_lem :
      (size : ℕ) (paths : List Text) (path : Text) (bytes : List ℕ)
      → local_candidate M file size paths ≡ some (path, bytes)
      → (file path ≡ some bytes) × (length bytes ≡ size)
  unfolding local_candidate
  local_candidate_lem size [] path bytes h = ground arith
  local_candidate_lem size (q ∷ paths) path bytes h =
      ground (arith, local_candidate_lem size paths path bytes)

  retrieved_facts :
      (e : Entry) (r : Retrieval)
      → (retrieved M file e (some r)).byte_match ≡ true
      → (text_eq (or_empty r.retrieved_md5) [] ≡ false)
        × (opt_text_eq r.status (codes "VERIFIED_EXACT_MATCH") ≡ true)
        × (text_eq (or_empty r.retrieved_md5) e.geofabrik_md5 ≡ true)
  unfolding retrieved
  retrieved_facts e r h = ground arith

  retrieved-IsVouched :
      (e : Entry) (o : Option Retrieval)
      → e.external_retrieval ≡ o
      → (retrieved M file e o).byte_match ≡ true
      → IsVouched M file e
  unfolding retrieved
  retrieved-IsVouched e none x h = absurd (ground arith)
  retrieved-IsVouched e (some r) x h =
      let f = retrieved_facts e r h in
      peer r x (opt_text_eq_sound r.status _ f.1) (or_empty-some r.retrieved_md5 _ f.0 f.2)

  byte_proof-IsVouched : (e : Entry) → (byte_proof M file e).byte_match ≡ true → IsVouched M file e
  unfolding byte_proof
  byte_proof-IsVouched e h =
      elim (Option-cases (local_candidate M file e.size (candidates e.region))) [
        | inl n ↦ retrieved-IsVouched e e.external_retrieval refl (rw (n, byte_proof) at h)
        | inr (p, found) ↦
            let f = local_candidate_lem e.size (candidates e.region) p.0 p.1 found in
            cached p.0 p.1 f.0 f.1 (text_eq_sound _ _ (rw (found, byte_proof) at h))
      ]

  hier_match_lem :
      (c : CatalogEntry) (o : Record)
      → hier_match M file c o ≡ true
      → (lower (level_text o.level) ≡ lower c.level) × (or_empty o.parent ≡ or_empty c.parent)
  unfolding hier_match
  hier_match_lem c o h = (text_eq_sound _ _ (ground arith), text_eq_sound _ _ (ground arith))

  storage_byte_pass_lem :
      (e : Entry) (o : Record)
      → storage_byte_pass M file e o ≡ true
      → (byte_proof M file e).byte_match ≡ true
  unfolding storage_byte_pass
  storage_byte_pass_lem e o h = ground arith

  -- A round that adds no mismatch.
  compare_entry_clean :
      (idx : ℕ) (e : Entry) (c : CatalogEntry) (o : Record) (p : Progress)
      → length (compare_entry M file idx e c o p).mismatches ≡ 0
      → (length p.mismatches ≡ 0)
        × (text_eq o.cid e.cid ≡ true)
        × (text_eq o.checksum e.geofabrik_md5 ≡ true)
        × (hier_match M file c o ≡ true)
        × (storage_byte_pass M file e o ≡ true)
  unfolding compare_entry
  compare_entry_clean idx e c o p h = ground (
    arith,
    length-append p.mismatches (
        mismatch e.region (text_eq o.cid e.cid) (text_eq o.checksum e.geofabrik_md5)
          (hier_match M file c o) (storage_byte_pass M file e o)
        ∷ []),
  )

  module _ (catalog : Dict CatalogEntry) (onchain : Records) where
    audit_entry_clean :
        (idx : ℕ) (e : Entry) (p : Progress)
        → length (audit_entry M file catalog onchain idx e p).mismatches ≡ 0
        → (length p.mismatches ≡ 0) × IsVerified M file catalog onchain e
    unfolding audit_entry
    audit_entry_clean idx e p h = elim (Option-cases (Dict.get e.region catalog)) [
      | inl n ↦ absurd (not_clean p.mismatches _ (rw (n, audit_entry) at h))
      | inr (c, found) ↦ elim (Option-cases (Dict.get e.region onchain)) [
        | inl n ↦ absurd (not_clean p.mismatches _ (rw (found, n, audit_entry) at h))
        | inr (o, there) ↦
            let f = compare_entry_clean idx e c o _ (rw (found, there, audit_entry) at h) in
            let g = hier_match_lem c o f.3 in
            (
              f.0,
              record {
                c = c;
                o = o;
                in_catalog = found;
                on_chain = there;
                cid = text_eq_sound _ _ f.1;
                checksum = text_eq_sound _ _ f.2;
                level = g.0;
                parent = g.1;
                bytes = byte_proof-IsVouched e (storage_byte_pass_lem e o f.4);
              },
            )
      ]
    ]

    audit_loop_clean :
        (idx : ℕ) (es : List Entry) (p : Progress)
        → length (audit_loop M file catalog onchain idx es p).mismatches ≡ 0
        → (length p.mismatches ≡ 0) × All (IsVerified M file catalog onchain) es
    unfolding audit_loop
    audit_loop_clean idx [] p h = (h, tt)
    audit_loop_clean idx (e ∷ es) p h =
        let later = audit_loop_clean (idx + 1) es _ h in
        let now = audit_entry_clean idx e p later.0 in (now.0, (now.1, later.1))

    -- Each round adds its country, and either a record or a mismatch or both.
    audit_entry_countries :
        (idx : ℕ) (e : Entry) (p : Progress)
        → (audit_entry M file catalog onchain idx e p).unique_countries
          ≡ add e.country p.unique_countries
    unfolding audit_entry compare_entry
    audit_entry_countries idx e p = ground arith

    audit_loop_countries :
        (idx : ℕ) (es : List Entry) (p : Progress)
        → (audit_loop M file catalog onchain idx es p).unique_countries
          ≡ distinct_onto (map (λ e. e.country) es) p.unique_countries
    unfolding audit_loop distinct_onto
    audit_loop_countries idx [] p = refl
    audit_loop_countries idx (e ∷ es) p =
        audit_loop_countries (idx + 1) es _
        ∙ ap (distinct_onto (map (λ e. e.country) es)) (audit_entry_countries idx e p)

abbrev pub catalog_map : List CatalogEntry → Dict CatalogEntry
catalog_map catalog = Dict.index_by (λ c. c.path) catalog []

module _ (M : Hashlib) (file : Text → Option (List ℕ)) (catalog : List CatalogEntry)
    (entries : List Entry) (onchain : Records) where
  abbrev pub final : Progress
  final = audit_loop M file (catalog_map catalog) onchain 1 (counting_entries entries) start

  final-IsCounted : IsCounted (0 + length (counting_entries entries)) final
  final-IsCounted =
      audit_loop-IsCounted M file (catalog_map catalog) onchain 1 0 (counting_entries entries) start
        (record { rounds = refl; failures = refl })

  pass_parts :
      (p : Progress)
      → (summarise p).audit_result ≡ pass
      → (length p.mismatches ≡ 0) × (length p.audit_records ≡ 25) × (15 ≤ length p.unique_countries)
  unfolding summarise
  pass_parts p h = ground arith

  -- A passing audit has seen exactly 25 counting entries of at least 15 countries, and each of
  -- them is in the catalog and on the chain, with the chain's CID and checksum, a level that agrees
  -- up to case and the same parent. For each of them a file with its size and MD5 is at hand, or the
  -- manifest itself records a verified retrieval with that MD5; in the second case the audit reads
  -- no bytes.
  pub audit_pass :
      (audit M file catalog entries onchain).summary.audit_result ≡ pass
      → (length (counting_entries entries) ≡ 25)
        × (15 ≤ count_countries (counting_entries entries))
        × All (IsVerified M file (catalog_map catalog) onchain) (counting_entries entries)
  unfolding audit count_countries distinct
  audit_pass h =
      let f = pass_parts final h in
      let c = final-IsCounted in
      let countries =
        audit_loop_countries M file (catalog_map catalog) onchain 1 (counting_entries entries)
          start in
      (
        omega (arith, c.rounds, c.failures, f.0, f.1),
        rw countries at f.2,
        (audit_loop_clean M file (catalog_map catalog) onchain 1 (counting_entries entries) start
            f.0).1,
      )

  -- With fewer than 25 counting entries and no mismatch the audit's result is a failure, and it
  -- exits with status 0 all the same.
  pub audit_fails_quietly :
      length (counting_entries entries) < 25
      → (audit M file catalog entries onchain).summary.mismatches_count ≡ 0
      → ((audit M file catalog entries onchain).summary.audit_result ≡ fail)
        × ((audit M file catalog entries onchain).exit_code ≡ 0)
  unfolding audit summarise
  audit_fails_quietly few clean = ground (arith, final-IsCounted.rounds, final-IsCounted.failures)
