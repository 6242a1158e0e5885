-- ===== src/Factory/Promise.antt =====
-- What the factories promise to who asks them for a service context.
use simcrs.Base.{◌≤◌, ◌<◌, String, some, ◌≡◌, refl, ◌∙◌, arith, ◌==◌, if◌then◌else◌}
use simcrs.Exec.{ok}
use simcrs.Context.{new_context}
use simcrs.Memory.{Memory, Address}
use simcrs.Factory.Sound.{IsSound, managed}
use simcrs.Factory.ServiceContext.{get_instance, create}
use simcrs.Factory.Making.{
  get_instance-Managed, get_instance-next, create-returned, create-contexts, create-next,
  create-Managed,
}

-- A context as its constructor leaves it, at an address that was not given out before; all the others
-- are as they were, and the factories are in order.
pub record Gives (code : String) (m : Memory) : Type 0 where
  pub factory : Address
  pub address : Address
  pub instance : (get_instance m).0 ≡ ok (some factory)
  pub returned : (create (some factory) code (get_instance m).1).0 ≡ ok (some address)
  pub contexts :
      (b : Address)
      → (create (some factory) code (get_instance m).1).1.contexts b
        ≡ (if address == b then some (new_context code) else m.contexts b)
  pub fresh : m.next ≤ address
  pub given : address < (create (some factory) code (get_instance m).1).1.next
  pub sound : IsSound (create (some factory) code (get_instance m).1).1

pub create-Gives : {m : Memory} (code : String) → IsSound m → Gives code m
create-Gives {m} code sound =
    let (f, pool, instance, there, same, again) = get_instance-Managed sound in
    record {
      factory = f;
      address = (get_instance m).1.next;
      instance = instance;
      returned = create-returned code there;
      contexts = λ b. create-contexts code there b ∙ rw same refl;
      fresh = get_instance-next sound;
      given = omega (arith, create-next code there);
      sound = managed f _ (create-Managed code there);
    }
