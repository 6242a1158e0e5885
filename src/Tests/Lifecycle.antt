-- ===== src/Tests/Lifecycle.antt =====
-- Services that are made, used and destroyed over the small inventory.
use simcrs.Base.{
  ℕ, ◌==◌, true, false, Option, some, none, List, [], ◌∷◌, ◌++◌, ◌≡◌, refl, arith, All,
}
use simcrs.Calls.{Call}
use simcrs.Exec.{ok, ◌>>=◌}
use simcrs.Context.{Context}
use simcrs.Memory.{empty_memory, at}
use simcrs.Program.{Program, in_memory}
use simcrs.Program.Only.{Ends, Any}
use simcrs.Factory.Sound.{IsSound, Managed, idle}
use simcrs.Factory.ServiceContext.{get_instance, create}
use simcrs.Factory.Supervisor.{clean_factory}
use simcrs.Factory.Cleaning.{Cleaned, clean_factory-Cleaned}
use simcrs.Factory.Making.{get_instance-Managed}
use simcrs.Service.{construct_owning, construct_borrowing, destroy}
use simcrs.Service.Operation.{Operation, perform}
use simcrs.Service.Safety.{IsReady, IsOwn, IsThrown, perform-IsOwn}
use simcrs.Service.Session.{session, Usable, Owned, session-Usable}
use simcrs.Service.Constructors.{Built, construct_owning-Built, construct_borrowing-Built}
use simcrs.Service.Placement.{at_address}
use simcrs.Service.Refusal.{Refuses, construct_borrowing-Refuses}
use simcrs.Service.Finalisation.{IsReleased, destroy-IsReleased}
use simcrs.Service.Separation.{construct-separate}
use simcrs.Service.Life.{
  started, then_step, make_owning, use_service, end_service, clean, Reachable-IsSound,
}
use simcrs.Tests.{sample, answers, start}
use simcrs.Tests.Selling.{
  half_full, half_full_sales, half_full-Plans, broken, broken_sales, broken-Plans,
}

pub empty_memory-IsSound : IsSound empty_memory
empty_memory-IsSound =
    idle refl refl (record { distinct = tt; live = λ a. refl; bounded = λ a h. ground (arith, h) })

construct_owning-Built_example :
    Built IsThrown true "1S" (construct_owning answers "simcrs.log" none "1S" start)
construct_owning-Built_example =
    construct_owning-Built answers "1S" "simcrs.log" none start empty_memory-IsSound

construct_borrowing-Built_example :
    Built IsThrown false "1S" (construct_borrowing answers (some 3) (some 4) "1S" start)
construct_borrowing-Built_example =
    construct_borrowing-Built answers "1S" 3 4 start empty_memory-IsSound

construct_borrowing-Refuses_example : Refuses (construct_borrowing answers (some 3) none "1S" start)
construct_borrowing-Refuses_example =
    construct_borrowing-Refuses answers (some 3) "1S" start empty_memory-IsSound

-- A service just made: its context stands at the third address.
abbrev pub opened : Program sample
opened = (construct_owning answers "simcrs.log" none "1S" start).1

abbrev pub opened_context : Context
opened_context = record {
  stdair_service = some 0;
  own_stdair_service = some true;
  sevmgr_service = none;
  own_sevmgr_service = true;
  airtsp_service = some 2;
  airinv_service = some 3;
  simfqt_service = some 1;
  crs_code = "1S";
}

pub opened-contexts : opened.memory.contexts 2 ≡ some opened_context
unfolding construct_owning ◌>>=◌ get_instance create
opened-contexts = refl

pub opened-at : at opened.memory.contexts (some 2) ≡ ok opened_context
unfolding construct_owning ◌>>=◌ get_instance create
opened-at = refl

pub opened-IsSound : IsSound opened.memory
unfolding construct_owning ◌>>=◌ get_instance create
opened-IsSound =
    (construct_owning-Built answers "1S" "simcrs.log" none start empty_memory-IsSound).5

pub opened_context-IsReady : IsReady opened_context
opened_context-IsReady = record {
  stdair_there = refl;
  flag_there = refl;
  airtsp_there = refl;
  airinv_there = refl;
  simfqt_there = refl;
}

perform-IsOwn_example :
    Ends IsThrown Any (perform answers (at_address 2) (Operation.sell half_full 2) opened).0
    × (cs : List (Call sample)) × All (IsOwn opened_context) cs
    × ((perform answers (at_address 2) (Operation.sell half_full 2) opened).1.history
        ≡ opened.history ++ cs)
perform-IsOwn_example =
    perform-IsOwn answers (at_address 2) opened_context (Operation.sell half_full 2) opened
      opened-at opened_context-IsReady (half_full_sales, half_full-Plans)

clean_factory-Cleaned_example : Cleaned opened.memory
clean_factory-Cleaned_example = clean_factory-Cleaned opened-IsSound

destroy-IsReleased_example :
    ((destroy (at_address 2) opened).0 ≡ ok tt)
    × ((d : Context) × ((destroy (at_address 2) opened).1.memory.contexts 2 ≡ some d)
        × IsReleased d
        × (d.crs_code ≡ opened_context.crs_code))
    × ((destroy (at_address 2) opened).1.history ≡ opened.history)
    × IsSound (destroy (at_address 2) opened).1.memory
    × ((b : ℕ)
        → (b == 2) ≡ false
        → (destroy (at_address 2) opened).1.memory.contexts b ≡ opened.memory.contexts b)
destroy-IsReleased_example =
    destroy-IsReleased 2 opened opened_context opened-contexts opened-IsSound

get_instance-Managed_example :
    (f : ℕ) × (pool : List (Option ℕ)) × ((get_instance empty_memory).0 ≡ ok (some f))
    × Managed (get_instance empty_memory).1 f pool
    × ((get_instance empty_memory).1.contexts ≡ empty_memory.contexts)
    × (get_instance (get_instance empty_memory).1 ≡ (ok (some f), (get_instance empty_memory).1))
get_instance-Managed_example = get_instance-Managed empty_memory-IsSound

construct-separate_example :
    ((construct_owning answers "second.log" none "2S" opened).1.memory.contexts 2
      ≡ some opened_context)
    × ((construct_borrowing answers (some 0) none "2S" opened).1.memory.contexts 2
        ≡ some opened_context)
construct-separate_example =
    construct-separate answers "second.log" none (some 0) none "2S" opened 2 opened_context
      opened-IsSound opened-contexts

-- A sale, one for a broken inventory, and one more.
abbrev pub three_sales : List (Operation sample)
three_sales = Operation.sell half_full 2 ∷ Operation.sell broken 2 ∷ Operation.sell half_full 2 ∷ []

session-Usable_example :
    Usable answers (at_address 2) three_sales opened
    × Owned answers
        (at_address 2)
        opened_context
        opened
        (session answers (at_address 2) three_sales opened)
session-Usable_example =
    session-Usable answers (at_address 2) opened_context opened_context-IsReady three_sales opened
      opened-at
      (
        (half_full_sales, half_full-Plans),
        ((broken_sales, broken-Plans), ((half_full_sales, half_full-Plans), tt)),
      )

-- A service is made, sells, and ends; then the factories are cleaned.
abbrev after_sale : Program sample
after_sale = (perform answers (at_address 2) (Operation.sell half_full 2) opened).1

Reachable-IsSound_example :
    IsSound (in_memory clean_factory (destroy (at_address 2) after_sale).1).1.memory
Reachable-IsSound_example = Reachable-IsSound answers (
    then_step
      (then_step
        (then_step (then_step started (make_owning "simcrs.log" none "1S"))
          (use_service (at_address 2) (Operation.sell half_full 2)))
        (end_service (at_address 2)))
      clean)
