-- ===== src/Types/Laws.antt =====
-- The test `===` on the status of a payment decides equality.
use securtxn.Prelude.{ℕ, zero, suc, List, [], ◌∷◌, true, ◌≡◌, refl, sym, ◌∙◌, ap, ==_iff}
use securtxn.Types.{
  PaymentStatus, draft, awaiting_payee_consent, decision_pending, awaiting_approval, approved, sent,
  confirmed_on_chain, exception, is_status, rank,
}

-- The status of a rank, counted down the list.
abbrev from_rank : List PaymentStatus → ℕ → PaymentStatus
from_rank [] n = exception
from_rank (s ∷ ss) zero = s
from_rank (s ∷ ss) (suc n) = from_rank ss n

abbrev of_rank : ℕ → PaymentStatus
of_rank = from_rank (
    draft ∷ awaiting_payee_consent ∷ decision_pending ∷ awaiting_approval ∷ approved ∷ sent
    ∷ confirmed_on_chain ∷ [])

of_rank-rank : (s : PaymentStatus) → of_rank (rank s) ≡ s
of_rank-rank draft = refl
of_rank-rank awaiting_payee_consent = refl
of_rank-rank decision_pending = refl
of_rank-rank awaiting_approval = refl
of_rank-rank approved = refl
of_rank-rank sent = refl
of_rank-rank confirmed_on_chain = refl
of_rank-rank exception = refl

pub is_status-eq : (a b : PaymentStatus) → is_status a b ≡ true → a ≡ b
unfolding is_status
is_status-eq a b h =
    sym (of_rank-rank a) ∙ ap of_rank ((==_iff (rank a) (rank b)).0 h) ∙ of_rank-rank b
