-- ===== src/Tests/Whole.antt =====
-- The whole life of a service over the small inventory.
use simcrs.Base.{none, [], ◌∷◌, refl}
use simcrs.Service.Making.{Makes}
use simcrs.Service.Operation.{Operation}
use simcrs.Service.Whole.{Lived, whole_life-Lived}
use simcrs.Tests.{sample, answers, start}
use simcrs.Tests.Lifecycle.{empty_memory-IsSound, three_sales}

-- The components are made as 0, 1, 2 and 3.
abbrev made : Makes {S = sample} answers "simcrs.log" none []
made = record {
  std = 0;
  fqt = 1;
  tsp = 2;
  inv = 3;
  stdair_made = refl;
  simfqt_made = refl;
  airtsp_made = refl;
  airinv_made = refl;
}

-- The sample is built; of three sales the second is for a broken inventory.
whole_life-Lived_example :
    Lived answers "simcrs.log" none "1S" (Operation.build_sample_bom ∷ three_sales) start made
whole_life-Lived_example =
    whole_life-Lived answers "simcrs.log" none "1S" (Operation.build_sample_bom ∷ three_sales) start
      made empty_memory-IsSound
