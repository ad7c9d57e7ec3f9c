-- ===== src/FeedbackLoop/Append.antt =====
-- The feedback repository is append-only and takes a submission once.
use veri_pay.Common.{
  List, Option-cases, String, [], ap, append-nil, append_assoc, inl, inr, insert, lookup,
  lookup-insert, none, refl, some, sym, text_refl, ℕ, ◌++◌, ◌∙◌, ◌∷◌, ◌≡◌,
}
use veri_pay.FeedbackLoop.{
  FeedbackRecord, FeedbackRepository, FeedbackSubmission, append_feedback, record_of,
}

append_known :
    (str : ℕ → String) (s : FeedbackSubmission) (now : ℕ) (repo : FeedbackRepository)
    (existing : FeedbackRecord)
    → lookup s.idempotency_key repo.by_key ≡ some existing
    → append_feedback str s now repo ≡ (existing, repo)
unfolding append_feedback
append_known str s now repo existing h = rw (append_feedback, h) refl

abbrev pub appended : FeedbackRecord → FeedbackRepository → FeedbackRepository
appended r repo = record {
  records = repo.records ++ (r ∷ []);
  by_key = insert r.idempotency_key r repo.by_key;
}

append_new :
    (str : ℕ → String) (s : FeedbackSubmission) (now : ℕ) (repo : FeedbackRepository)
    → lookup s.idempotency_key repo.by_key ≡ none
    → append_feedback str s now repo
      ≡ (record_of str s now repo, appended (record_of str s now repo) repo)
unfolding append_feedback
append_new str s now repo h = rw (append_feedback, h) refl

-- After an append, the record that it answered is the one of its key.
append_feedback-lookup :
    (str : ℕ → String) (s : FeedbackSubmission) (now : ℕ) (repo : FeedbackRepository)
    → lookup s.idempotency_key (append_feedback str s now repo).1.by_key
      ≡ some (append_feedback str s now repo).0
append_feedback-lookup str s now repo = elim (Option-cases (lookup s.idempotency_key repo.by_key)) [
  | inl e ↦
      let step = append_new str s now repo e in
      let r = record_of str s now repo in
      ap (λ p. lookup s.idempotency_key p.1.by_key) step
      ∙ lookup-insert s.idempotency_key s.idempotency_key r repo.by_key
      ∙ rw (text_refl s.idempotency_key) refl
      ∙ ap (λ p. some p.0) (sym step)
  | inr (existing, e) ↦
      let step = append_known str s now repo existing e in
      ap (λ p. lookup s.idempotency_key p.1.by_key) step ∙ e ∙ ap (λ p. some p.0) (sym step)
]

-- Whatever an append answers, a later append with the same idempotency key, at whichever time and
-- with whichever other fields, answers the same record and changes nothing.
pub append_feedback_again :
    (str : ℕ → String) (s again : FeedbackSubmission) (now later : ℕ) (repo : FeedbackRepository)
    → again.idempotency_key ≡ s.idempotency_key
    → append_feedback str again later (append_feedback str s now repo).1
      ≡ append_feedback str s now repo
append_feedback_again str s again now later repo same =
    append_known str again later (append_feedback str s now repo).1
      (append_feedback str s now repo).0
      (ap (λ k. lookup k (append_feedback str s now repo).1.by_key) same
        ∙ append_feedback-lookup str s now repo)

-- The repository after a list of submissions, each with its clock reading.
abbrev pub append_all :
    (ℕ → String) → List (FeedbackSubmission × ℕ) → FeedbackRepository → FeedbackRepository
append_all str [] repo = repo
append_all str ((s, now) ∷ rest) repo = append_all str rest (append_feedback str s now repo).1

-- One append leaves the records or adds one at their end.
append_feedback-records :
    (str : ℕ → String) (s : FeedbackSubmission) (now : ℕ) (repo : FeedbackRepository)
    → (more : List FeedbackRecord) × ((append_feedback str s now repo).1.records
        ≡ repo.records ++ more)
append_feedback-records str s now repo =
    elim (Option-cases (lookup s.idempotency_key repo.by_key)) [
      | inl e ↦ (record_of str s now repo ∷ [], ap (λ p. p.1.records) (append_new str s now repo e))
      | inr (existing, e) ↦ (
        [],
        ap (λ p. p.1.records) (append_known str s now repo existing e)
            ∙ sym (append-nil repo.records),
      )
    ]

-- However many submissions are appended, the records that were there stay, in their order, at the
-- front.
pub append_all-records :
    (str : ℕ → String) (todo : List (FeedbackSubmission × ℕ)) (repo : FeedbackRepository)
    → (more : List FeedbackRecord) × ((append_all str todo repo).records ≡ repo.records ++ more)
append_all-records str [] repo = ([], sym (append-nil repo.records))
append_all-records str ((s, now) ∷ rest) repo =
    let (one, h) = append_feedback-records str s now repo in
    let (others, k) = append_all-records str rest (append_feedback str s now repo).1 in
    (one ++ others, k ∙ ap (λ l. l ++ others) h ∙ append_assoc repo.records one others)
