-- ===== src/Audit/Counts.antt =====
-- How the counts of the audit's summary hang together.
use atlasmirror.Prelude.{
  ℕ, suc, ◌+◌, ◌-◌, inl, inr, ◌≡◌, refl, Text, Bool, true, false, not, arith, if◌then◌else◌, sub_ℕ,
}
use atlasmirror.Prelude.{
  Option, List, [], ◌∷◌, ◌++◌, length, length-append, keep, keep-append, Option-cases,
}
use native.Mathlib.Nat.{add-zero}
use atlasmirror.Dict
use atlasmirror.Dict.{Dict}
use atlasmirror.Hashing.{Hashlib}
use atlasmirror.Manifest.{Entry}
use atlasmirror.Catalog.{CatalogEntry}
use atlasmirror.Onchain.{Record, Records}
use atlasmirror.Audit.{
  Progress, AuditRecord, Mismatch, not_in_catalog, missing_onchain, mismatch, compare_entry,
  audit_entry, audit_loop, audit, summarise, counting_entries, start,
}

-- The entry was not found in the catalog or not on the chain.
abbrev pub is_missing : Mismatch → Bool
is_missing (not_in_catalog r) = true
is_missing (missing_onchain r) = true
is_missing (mismatch r a b c d) = false

abbrev pub missing : List Mismatch → ℕ
missing ms = length (keep is_missing ms)

abbrev pub verified : List AuditRecord → ℕ
verified rs = length (keep (λ r. r.is_verified) rs)

abbrev unverified : List AuditRecord → ℕ
unverified rs = length (keep (λ r. not r.is_verified) rs)

split_records : (rs : List AuditRecord) → verified rs + unverified rs ≡ length rs
split_records [] = omega arith
split_records (r ∷ rs) = ground (arith, split_records rs)

missing-append :
    (ms : List Mismatch) (m : Mismatch) → missing (ms ++ (m ∷ [])) ≡ missing ms + missing (m ∷ [])
missing-append ms m = rw (keep-append is_missing ms (m ∷ [])) (length-append (keep is_missing ms) _)

unverified-append :
    (rs : List AuditRecord) (r : AuditRecord)
    → unverified (rs ++ (r ∷ [])) ≡ unverified rs + unverified (r ∷ [])
unverified-append rs r =
    rw (keep-append (λ q. not q.is_verified) rs (r ∷ []))
      (length-append (keep (λ q. not q.is_verified) rs) _)

-- After n rounds: each entry has a record or is missing, and the mismatches are the missing
-- entries and the records that are not verified.
pub record IsCounted (n : ℕ) (p : Progress) : Type 0 where
  pub rounds : length p.audit_records + missing p.mismatches ≡ n
  pub failures : length p.mismatches ≡ missing p.mismatches + unverified p.audit_records

add_missing :
    (n : ℕ) (p : Progress) (m : Mismatch) (cs : List Text)
    → is_missing m ≡ true
    → IsCounted n p
    → IsCounted (suc n) (record p { mismatches = p.mismatches ++ (m ∷ []); unique_countries = cs })
add_missing n p m cs e h = record {
  rounds = ground (arith, missing-append p.mismatches m);
  failures = ground (arith, missing-append p.mismatches m, length-append p.mismatches (m ∷ []));
}

add_record :
    (n : ℕ) (p : Progress) (r : AuditRecord) (m : Mismatch) (b : Bool)
    → r.is_verified ≡ b
    → is_missing m ≡ false
    → IsCounted n p
    → IsCounted (suc n) (record p {
      audit_records = p.audit_records ++ (r ∷ []);
      mismatches = if b then p.mismatches else p.mismatches ++ (m ∷ []);
    })
add_record n p r m true good e h = record {
  rounds = omega (arith, h.rounds, length-append p.audit_records (r ∷ []));
  failures = ground (arith, h.failures, unverified-append p.audit_records r);
}
add_record n p r m false bad e h = record {
  rounds =
      ground
        (arith, h.rounds, length-append p.audit_records (r ∷ []), missing-append p.mismatches m);
  failures = ground (
    arith,
    h.failures,
    unverified-append p.audit_records r,
    missing-append p.mismatches m,
    length-append p.mismatches (m ∷ []),
  );
}

count_lem :
    (n : ℕ) (p : Progress)
    → IsCounted (0 + n) p
    → sub_ℕ (length p.audit_records) (length p.mismatches)
      ≡ sub_ℕ (verified p.audit_records) (n - length p.audit_records)
count_lem n p h = ground (arith, h.rounds, h.failures, split_records p.audit_records)

module _ (M : Hashlib) (file : Text → Option (List ℕ)) where
  compare_entry-IsCounted :
      (idx n : ℕ) (e : Entry) (c : CatalogEntry) (o : Record) (p : Progress)
      → IsCounted n p
      → IsCounted (suc n) (compare_entry M file idx e c o p)
  unfolding compare_entry
  compare_entry-IsCounted idx n e c o p h = add_record n p _ (mismatch _ _ _ _ _) _ refl refl h

  module _ (catalog : Dict CatalogEntry) (onchain : Records) where
    audit_entry-IsCounted :
        (idx n : ℕ) (e : Entry) (p : Progress)
        → IsCounted n p
        → IsCounted (suc n) (audit_entry M file catalog onchain idx e p)
    unfolding audit_entry
    audit_entry-IsCounted idx n e p h = elim (Option-cases (Dict.get e.region catalog)) [
      | inl a ↦ rw (a, audit_entry) (add_missing n p (not_in_catalog e.region) _ refl h)
      | inr (c, found) ↦ elim (Option-cases (Dict.get e.region onchain)) [
        | inl a ↦ rw (found, a, audit_entry) (add_missing n p (missing_onchain e.region) _ refl h)
        | inr (o, there) ↦
            rw (found, there, audit_entry)
              (compare_entry-IsCounted idx n e c o _
                (record { rounds = h.rounds; failures = h.failures }))
      ]
    ]

    pub audit_loop-IsCounted :
        (idx n : ℕ) (es : List Entry) (p : Progress)
        → IsCounted n p
        → IsCounted (n + length es) (audit_loop M file catalog onchain idx es p)
    unfolding audit_loop
    audit_loop-IsCounted idx n [] p h = rw add-zero h
    audit_loop-IsCounted idx n (e ∷ es) p h =
        let ih = audit_loop-IsCounted (idx + 1) (suc n) es _ (audit_entry-IsCounted idx n e p h) in
        record { rounds = omega (arith, ih.rounds); failures = ih.failures }

  -- The summary's `total_verified_entries` is the number of records that are verified, less the
  -- number of counting entries that have no record because the catalog or the chain lacks them:
  -- it is below the number of verified entries whenever such an entry is there.
  pub total_verified_entries_lem :
      (catalog : List CatalogEntry) (entries : List Entry) (onchain : Records)
      → let a = audit M file catalog entries onchain in
        let absent = length (counting_entries entries) - length a.records in
        a.summary.total_verified_entries ≡ sub_ℕ (verified a.records) absent
  unfolding audit summarise
  total_verified_entries_lem catalog entries onchain =
      count_lem (length (counting_entries entries)) _ (
        audit_loop-IsCounted (Dict.index_by (λ c. c.path) catalog []) onchain 1 0
          (counting_entries entries) start (record { rounds = refl; failures = refl }))
