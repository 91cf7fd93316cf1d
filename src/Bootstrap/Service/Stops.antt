-- ===== src/Bootstrap/Service/Stops.antt =====
-- `stopAll` of packages/bootstrap/src/service.ts: the order of the stops, and the loop over them.
-- Stop orders are whole numbers of some unit, as every finite double is of 2^-1074.
use first_principles.Base.Int.{ℤ, pos, ltb_ℤ}
use first_principles.Base.{
  ℕ, suc, ◌+◌, String, Bool, true, false, not, Option, none, some, List, [], ◌∷◌, ◌++◌, map,
  if◌then◌else◌, ltb, ◌≡◌, refl, ap, ◌∙◌, length, length-map, arith,
}

pub record Resource : Type 0 where
  pub name : String
  pub stop_order : Option ℤ

abbrev pub order_of : Option ℤ → ℤ
order_of none = pos 0
order_of (some order) = order

pub record Entry : Type 0 where
  pub resource : Resource
  pub index : ℕ

-- Whether the comparison function is negative or zero.
abbrev pub goes_first : Entry → Entry → Bool
goes_first a b =
    let r = a.resource in
    let s = b.resource in
    if ltb_ℤ (order_of r.stop_order) (order_of s.stop_order)
    then true
    else if ltb_ℤ (order_of s.stop_order) (order_of r.stop_order)
    then false
    else not (ltb a.index b.index)

abbrev pub entries : ℕ → List Resource → List Entry
entries i [] = []
entries i (r ∷ rest) = record { resource = r; index = i } ∷ entries (i + 1) rest

-- `Array.prototype.sort`
unfoldable pub insert : Entry → List Entry → List Entry
insert e [] = e ∷ []
insert e (f ∷ rest) = if goes_first e f then e ∷ f ∷ rest else f ∷ insert e rest

unfoldable pub sort : List Entry → List Entry
sort [] = []
sort (e ∷ rest) = insert e (sort rest)

abbrev pub resource_of : Entry → Resource
resource_of e = e.resource

unfoldable pub stop_sequence : List Resource → List Resource
stop_sequence list = map resource_of (sort (entries 0 list))

abbrev pub is_empty {ℓ} : {A : Type ℓ} → List A → Bool
is_empty [] = true
is_empty (_ ∷ _) = false

-- What ends the wait for a stop: it resolves, it rejects, or the deadline comes first.
pub data StopTurn : Type 0 where
  resolves rejects deadline : StopTurn

pub record StopRun : Type 0 where
  pub current : Resource
  pub rest : List Resource
  pub failed : List String

pub record StopOutcome : Type 0 where
  pub timed_out : Bool
  pub failed : List String
  pub pending : List String

pub data StopLoop : Type 0 where
  ended : StopOutcome → StopLoop
  awaiting : StopRun → StopLoop

abbrev pub names_of : List Resource → List String
names_of = map (λ r. r.name)

abbrev pub leave : List String → List String → StopOutcome
leave failed pending = record {
  timed_out = not (is_empty pending);
  failed = failed;
  pending = pending;
}

-- A round of the loop, up to its `await`: `aborted` is whether the deadline has passed.
unfoldable pub stop_next : List Resource → List String → Bool → StopLoop
stop_next [] failed aborted = ended (leave failed [])
stop_next (r ∷ rest) failed true = ended (leave failed (names_of (r ∷ rest)))
stop_next (r ∷ rest) failed false = awaiting (record { current = r; rest = rest; failed = failed })

unfoldable pub after_turn : StopRun → StopTurn → Bool → StopLoop
after_turn run resolves aborted = stop_next run.rest run.failed aborted
after_turn run rejects aborted =
    let r = run.current in stop_next run.rest (run.failed ++ r.name ∷ []) aborted
after_turn run deadline aborted = ended (leave run.failed (names_of (run.current ∷ run.rest)))

length-insert : (e : Entry) (es : List Entry) → length (insert e es) ≡ suc (length es)
unfolding insert
length-insert e [] = refl
length-insert e (f ∷ rest) = ground (arith, length-insert e rest)

length-sort : (es : List Entry) → length (sort es) ≡ length es
unfolding sort
length-sort [] = refl
length-sort (e ∷ rest) = length-insert e (sort rest) ∙ ap suc (length-sort rest)

length-entries : (i : ℕ) (list : List Resource) → length (entries i list) ≡ length list
length-entries i [] = refl
length-entries i (r ∷ rest) = ap suc (length-entries (i + 1) rest)

pub length-stop_sequence : (list : List Resource) → length (stop_sequence list) ≡ length list
unfolding stop_sequence
length-stop_sequence list =
    length-map (sort (entries 0 list)) resource_of
    ∙ (length-sort (entries 0 list) ∙ length-entries 0 list)
