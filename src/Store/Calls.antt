-- ===== src/Store/Calls.antt =====
-- internal/invoice/repository.go: sequences of calls of a repository's point operations, over any
-- implementation.
use vex_pay.Common.{ℕ, List, [], ◌∷◌, Result}
use vex_pay.Common.Text.{Str}
use vex_pay.Invoice.{Invoice}
use vex_pay.Invoice.Repository.{Repository}

pub data Call : Type 0 where
  create_call : Invoice → Call
  get_call : Str → Call
  update_call : Invoice → Call
  index_call : Str → Call

pub data Answer : Type 0 where
  done : Result (Unit {0}) → Answer
  answered : Result Invoice → Answer
  indexed : Result ℕ → Answer

module _ {S : Type 0} (repo : Repository S) where
  unfoldable pub call : Call → S → Answer × S
  call (create_call inv) s = (done (repo.create inv s).0, (repo.create inv s).1)
  call (get_call id) s = (answered (repo.get id s), s)
  call (update_call inv) s = (done (repo.update inv s).0, (repo.update inv s).1)
  call (index_call merchant) s =
      (indexed (repo.next_derivation_index merchant s).0, (repo.next_derivation_index merchant s).1)

  unfoldable pub run : List Call → S → List Answer × S
  run [] s = ([], s)
  run (c ∷ cs) s = ((call c s).0 ∷ (run cs (call c s).1).0, (run cs (call c s).1).1)
