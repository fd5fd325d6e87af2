-- ===== src/Governance/Slashing/Outcome.antt =====
-- The outcome of a slash request as a function of its votes.
use credence_backend.Governance.Slashing.{
  pending, approved, rejected, Vote, SlashRequest, is_approve, is_reject, compute_status,
}
use credence_backend.Base.{ℕ, ◌+◌, ◌≤◌, ◌<◌, ◌≡◌, ◌≢◌, ◌↔◌, List, [], ◌∷◌, arith, filter, length}

abbrev pub approvals : SlashRequest → ℕ
approvals req = length (filter is_approve req.votes)

abbrev pub rejections : SlashRequest → ℕ
rejections req = length (filter is_reject req.votes)

pub counts-add :
    (vs : List Vote) → length (filter is_approve vs) + length (filter is_reject vs) ≡ length vs
counts-add [] = omega arith
counts-add (v ∷ vs) = ground (arith, counts-add vs)

-- With no more votes than signers, a request is approved exactly when the approvals reach the
-- threshold, rejected exactly when the rejections leave too few signers for it, and pending
-- otherwise; when all signers have voted it is not pending.
compute_status-decides :
    (req : SlashRequest)
    → req.threshold ≤ req.total_signers
    → length req.votes ≤ req.total_signers
    → ((compute_status req ≡ approved) ↔ (req.threshold ≤ approvals req))
      × ((compute_status req ≡ rejected) ↔ (req.total_signers < rejections req + req.threshold))
      × (length req.votes ≡ req.total_signers → compute_status req ≢ pending)
unfolding compute_status
compute_status-decides req h k = ground (arith, counts-add req.votes)

pub pending-room :
    (req : SlashRequest) → compute_status req ≡ pending → length req.votes < req.total_signers
unfolding compute_status
pending-room req h = ground (arith, counts-add req.votes)
