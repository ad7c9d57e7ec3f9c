-- ===== src/DisputeEngine/Repository.antt =====
-- The three tables of the dispute engine's repository stay consistent, and creation is idempotent.
use veri_pay.Common.{
  All, All-insert, All-lookup, All-map, Bool-cases, Dict, Option-cases, String, ap, arith, err, inl,
  inr, insert, is_some, lookup, lookup-insert, none, ok, refl, some, string_eq, sym, text_refl,
  true, ◌==◌, ◌∙◌, ◌≡◌, ◌≢◌, ◌⊎◌,
}
use veri_pay.DisputeEngine.{
  DisputeCase, DisputeError, Disputes, EvidenceSubmission, create, duplicate_id, not_opened, save,
}
use veri_pay.Enums.Dispute.{DisputeStatus, dispute_status_beq_iff, dispute_status_eq}

-- A case that is stored under the identifier and was created under the key.
abbrev pub HasCase : Disputes → String → String → Type 0
HasCase d key id = (c : DisputeCase) × (lookup id d.cases ≡ some c) × (c.idempotency_key ≡ key)

-- Cases stand under their identifiers, every idempotency key leads to a stored case that was created
-- under it, and every piece of evidence belongs to a stored case.
pub record IsValid (d : Disputes) : Type 0 where
  pub keyed : All (λ (e : String × DisputeCase). e.0 ≡ e.1.dispute_id) d.cases
  pub keys_lead : All (λ (e : String × String). HasCase d e.0 e.1) d.by_idempotency_key
  pub evidence_belongs :
      All
        (λ (e : String × EvidenceSubmission). is_some (lookup e.1.dispute_id d.cases) ≡ true)
        d.evidence

module _ (d : Disputes) (c : DisputeCase) where
  -- A stored case is there after a write of its own successor or of another case.
  lookup-kept :
      (id key : String) (b : DisputeCase)
      → lookup id d.cases ≡ some b
      → b.idempotency_key ≡ key
      → (c.dispute_id ≡ id → c.idempotency_key ≡ key)
      → (e : DisputeCase) × (lookup id (insert c.dispute_id c d.cases) ≡ some e)
        × (e.idempotency_key ≡ key)
  lookup-kept id key b found named successor = elim (Bool-cases (c.dispute_id == id)) [
    | inl same ↦
        (c, rw lookup-insert (rw same), successor ((string_eq.beq_iff c.dispute_id id).0 same))
    | inr other ↦ (b, rw lookup-insert (rw other found), named)
  ]

is_some-insert :
    (k j : String) (c : DisputeCase) (cases : Dict DisputeCase)
    → is_some (lookup j cases) ≡ true
    → is_some (lookup j (insert k c cases)) ≡ true
is_some-insert k j c cases h = rw lookup-insert (ground arith)

-- A write keeps the tables consistent, if a case that it replaces was created under the same key.
pub save-IsValid :
    (c : DisputeCase) (d : Disputes)
    → ((b : DisputeCase)
        → lookup c.dispute_id d.cases ≡ some b
        → c.idempotency_key ≡ b.idempotency_key)
    → IsValid d
    → IsValid (save c d)
unfolding save
save-IsValid c d successor v = record {
  keyed =
      All-insert (λ (e : String × DisputeCase). e.0 ≡ e.1.dispute_id) c.dispute_id c d.cases refl
        v.keyed;
  keys_lead =
      All-map (λ (e : String × String). HasCase d e.0 e.1)
        (λ (e : String × String). HasCase (save c d) e.0 e.1) d.by_idempotency_key
        (λ e (b, found, named).
          lookup-kept d c e.1 e.0 b found named
            (λ same. successor b (ap (λ k. lookup k d.cases) same ∙ found) ∙ named))
        v.keys_lead;
  evidence_belongs =
      All-map (λ (e : String × EvidenceSubmission). is_some (lookup e.1.dispute_id d.cases) ≡ true)
        (λ (e : String × EvidenceSubmission).
          is_some (lookup e.1.dispute_id (save c d).cases) ≡ true)
        d.evidence (λ e h. is_some-insert c.dispute_id e.1.dispute_id c d.cases h)
        v.evidence_belongs;
}

lookup-insert_self :
    (c : DisputeCase) (cases : Dict DisputeCase)
    → lookup c.dispute_id (insert c.dispute_id c cases) ≡ some c
lookup-insert_self c cases = rw lookup-insert (rw (text_refl c.dispute_id))

-- The repository after a creation of a new case.
abbrev pub added : DisputeCase → Disputes → Disputes
added c d = record d {
  cases = insert c.dispute_id c d.cases;
  by_idempotency_key = insert c.idempotency_key c.dispute_id d.by_idempotency_key;
}

pub added-IsValid :
    (c : DisputeCase) (d : Disputes)
    → lookup c.dispute_id d.cases ≡ none
    → IsValid d
    → IsValid (added c d)
unfolding save
added-IsValid c d fresh v =
    let v' = save-IsValid c d (λ b found. cc) v in
    record {
      keyed = v'.keyed;
      keys_lead =
          All-insert (λ (e : String × String). HasCase (save c d) e.0 e.1) c.idempotency_key
            c.dispute_id d.by_idempotency_key (c, lookup-insert_self c d.cases, refl) v'.keys_lead;
      evidence_belongs = v'.evidence_belongs;
    }

create_unknown :
    (c : DisputeCase) (d : Disputes)
    → lookup c.idempotency_key d.by_idempotency_key ≡ none
    → ((e : DisputeError) × (lookup c.idempotency_key d.by_idempotency_key ≡ none)
        × (((e ≡ duplicate_id) × (is_some (lookup c.dispute_id d.cases) ≡ true))
            ⊎ ((e ≡ not_opened) × (c.status ≢ DisputeStatus.opened)))
        × (create c d ≡ (err e, d)))
      ⊎ ((lookup c.idempotency_key d.by_idempotency_key ≡ none)
          × (lookup c.dispute_id d.cases ≡ none)
          × (c.status ≡ DisputeStatus.opened)
          × (create c d ≡ (ok c, added c d)))
unfolding create
create_unknown c d unknown = elim (Option-cases (lookup c.dispute_id d.cases)) [
  | inr (b, used) ↦ inl (duplicate_id, unknown, inl (refl, rw used), rw (unknown, create) (rw used))
  | inl free ↦ elim (Bool-cases (c.status == DisputeStatus.opened)) [
    | inl opened ↦ inr (
      unknown,
      free,
      (dispute_status_beq_iff c.status DisputeStatus.opened).0 opened,
      rw (unknown, create) (rw (free, opened)),
    )
    | inr closed ↦
        inl
          (not_opened, unknown, inr (refl, ground arith), rw (unknown, create) (rw (free, closed)))
  ]
]

-- In a valid repository `create` answers one of three ways: with the stored case that was created
-- under the key before, and unchanged tables; or with a refusal and no change, where the key is
-- unknown and the identifier is used or the case is not OPENED; or with the new case, added under
-- its identifier and its key.
pub create_lem :
    (c : DisputeCase) (d : Disputes)
    → IsValid d
    → ((b : DisputeCase) × (b.idempotency_key ≡ c.idempotency_key)
        × (lookup b.dispute_id d.cases ≡ some b)
        × (create c d ≡ (ok b, d)))
      ⊎ ((e : DisputeError) × (lookup c.idempotency_key d.by_idempotency_key ≡ none)
          × (((e ≡ duplicate_id) × (is_some (lookup c.dispute_id d.cases) ≡ true))
              ⊎ ((e ≡ not_opened) × (c.status ≢ DisputeStatus.opened)))
          × (create c d ≡ (err e, d)))
      ⊎ ((lookup c.idempotency_key d.by_idempotency_key ≡ none)
          × (lookup c.dispute_id d.cases ≡ none)
          × (c.status ≡ DisputeStatus.opened)
          × (create c d ≡ (ok c, added c d)))
unfolding create
create_lem c d v = elim (Option-cases (lookup c.idempotency_key d.by_idempotency_key)) [
  | inr (id, known) ↦
      let (b, found, named) =
        All-lookup (λ (e : String × String). HasCase d e.0 e.1) c.idempotency_key id
          d.by_idempotency_key v.keys_lead known in
      let key : id ≡ b.dispute_id =
        All-lookup (λ (e : String × DisputeCase). e.0 ≡ e.1.dispute_id) id b d.cases v.keyed
          found in
      inl (b, named, ap (λ k. lookup k d.cases) (sym key) ∙ found, rw (known, create) (rw found))
  | inl unknown ↦ inr (create_unknown c d unknown)
]
