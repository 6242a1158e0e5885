-- ===== src/Tests/Building.antt =====
-- The building and the loading of business objects over the small inventory.
use simcrs.Base.{true, ◌≡◌, refl, [], ◌∷◌}
use simcrs.Calls.{stdair, airtsp, airinv, simfqt, StdairCall, AirtspCall, AirinvCall, SimfqtCall}
use simcrs.Exec.{ok}
use simcrs.Program.Attempt.{called}
use simcrs.Service.Building.{Components, Serves, building}
use simcrs.Program.{ask}
use simcrs.Service.Operation.{Operation, perform}
use simcrs.Service.Delegation.{perform-delegated}
use simcrs.Service.Placement.{at_address}
use simcrs.Tests.{sample, answers}
use simcrs.Tests.Lifecycle.{opened, opened_context, opened-at}

-- The components of the service just made.
abbrev pub made : Components
made = record { std = 0; tsp = 2; inv = 3; fqt = 1; owned = true }

pub opened_context-Serves : Serves opened_context made
opened_context-Serves = record {
  stdair_there = refl;
  flag_there = refl;
  airtsp_there = refl;
  airinv_there = refl;
  simfqt_there = refl;
}

-- A service that owns StdAir has it build first.
building-made :
    building {S = sample} made
    ≡ stdair 0 StdairCall.get_persistent_bom_root
      ∷ stdair 0 StdairCall.build_sample_bom
      ∷ airtsp 2 AirtspCall.build_sample_bom
      ∷ airinv 3 AirinvCall.build_sample_bom
      ∷ simfqt 1 SimfqtCall.build_sample_bom
      ∷ stdair 0 StdairCall.clone_persistent_bom
      ∷ airtsp 2 AirtspCall.clone_persistent_bom
      ∷ airinv 3 AirinvCall.clone_persistent_bom
      ∷ simfqt 1 SimfqtCall.clone_persistent_bom
      ∷ stdair 0 StdairCall.get_bom_root
      ∷ []
building-made = refl

perform-delegated_example :
    perform answers (at_address 2) (Operation.sell_segment "SV,5,2010-03-11" "Y" 2) opened ≡ (
      ok true,
      called answers opened (airinv 3 (AirinvCall.sell_segment "SV,5,2010-03-11" "Y" 2) ∷ []),
    )
unfolding ask
perform-delegated_example =
    perform-delegated answers made (at_address 2) opened_context
      (Operation.sell_segment "SV,5,2010-03-11" "Y" 2) opened opened-at opened_context-Serves
