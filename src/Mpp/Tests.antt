-- ===== src/Mpp/Tests.antt =====
-- The machine payment store at a concrete challenge.
use stellar_agent_spend_hub.Common.{
  ℕ, String, Bool, true, false, Option, none, some, [], ◌∷◌, ◌≡◌, refl,
}
use stellar_agent_spend_hub.Common.Result.{ok}
use stellar_agent_spend_hub.Common.Map.{get, set}
use stellar_agent_spend_hub.Mpp.{Change, noop, put, Json, Store, decode, update, update_loop}
use stellar_agent_spend_hub.Mpp.Atomic.{IsUpdate, update-IsUpdate, update-quiet, perform, result_of}

abbrev json : Json String
json = record { encode = λ v. v; parse = λ v. v }

-- the first caller takes the challenge, every later one is turned away
abbrev take_once : Option String → Change String Bool
take_once none = put "used" true
take_once (some v) = noop false

-- another call takes the challenge before the first write
abbrev others : ℕ → Store → Store
others n s = ("challenge-1", "used") ∷ []

turned_away :
    update json "challenge-1" take_once others [] ≡ (ok false, ("challenge-1", "used") ∷ [])
unfolding update update_loop get set
turned_away = refl

update-IsUpdate_example :
    IsUpdate json "challenge-1" take_once others [] false (("challenge-1", "used") ∷ [])
update-IsUpdate_example =
    update-IsUpdate json "challenge-1" take_once others [] (("challenge-1", "used") ∷ []) false
      turned_away

update-quiet_example : update json "challenge-1" take_once (λ n t. t) [] ≡ (
  ok (result_of (take_once (decode json (get "challenge-1" [])))),
  perform json "challenge-1" (take_once (decode json (get "challenge-1" []))) [],
)
update-quiet_example = update-quiet json "challenge-1" take_once []
