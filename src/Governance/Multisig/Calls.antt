-- ===== src/Governance/Multisig/Calls.antt =====
-- Sequences of calls, and the invariant over them.
use credence_backend.Governance.Multisig.{
  MultisigInput, State, create_proposal, get_proposal, submit_signature, reject_proposal,
  add_slashing_vote, execute_proposal,
}
use credence_backend.Governance.Multisig.Invariant.{
  AllSound, submit_signature-AllSound, reject_proposal-AllSound, add_slashing_vote-AllSound,
  execute_proposal-AllSound, get_proposal-AllSound, create_proposal-AllSound,
}
use credence_backend.Base.{ℕ, String, List, [], ◌∷◌}

-- One call of a method, with the time at which it runs where the method reads the clock.
pub data Call : Type 0 where
  create : String → ℕ → MultisigInput → Call
  get : ℕ → String → Call
  submit : ℕ → String → String → String → Call
  slash : ℕ → String → String → Call
  execute : String → Call
  reject : String → String → Call

abbrev pub step : Call → State → State
step (create id now input) s = (create_proposal id now input s).1
step (get now id) s = (get_proposal now id s).1
step (submit now id signer signature) s = (submit_signature now id signer signature s).1
step (slash now id voter) s = (add_slashing_vote now id voter s).1
step (execute id) s = (execute_proposal id s).1
step (reject id reason) s = (reject_proposal id reason s).1

abbrev pub run : List Call → State → State
run [] s = s
run (c ∷ cs) s = run cs (step c s)

pub step-AllSound : (c : Call) (s : State) → AllSound s → AllSound (step c s)
step-AllSound (create id now input) s all = create_proposal-AllSound id now input s all
step-AllSound (get now id) s all = get_proposal-AllSound now id s all
step-AllSound (submit now id signer signature) s all =
    submit_signature-AllSound now id signer signature s all
step-AllSound (slash now id voter) s all = add_slashing_vote-AllSound now id voter s all
step-AllSound (execute id) s all = execute_proposal-AllSound id s all
step-AllSound (reject id reason) s all = reject_proposal-AllSound id reason s all

-- Whatever calls are made, every stored proposal has only signatures of its signers, is pending
-- only while it has fewer than required, and is approved or executed only with at least as many as
-- required.
pub run-AllSound : (cs : List Call) (s : State) → AllSound s → AllSound (run cs s)
run-AllSound [] s all = all
run-AllSound (c ∷ cs) s all = run-AllSound cs (step c s) (step-AllSound c s all)
