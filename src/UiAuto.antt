-- ===== src/UiAuto.antt =====
-- src/autoperf/uiauto.py: how an element is found on the screen. The parsing of the dump is not
-- modelled. `lower` is Python's `str.lower`; a coordinate is a fraction in thousandths.
pub mod Found
use Prim.Native.String.{count as chars}
use auto_perf.Prelude.{
  ℕ, zero, suc, ◌*◌, ◌+◌, ◌/◌, ◌%◌, String, Bool, true, false, not, ◌&&◌, ◌||◌, Option, none, some,
  List, [], ◌∷◌, ◌==◌, ltb, leb, eqb, is_none, if◌then◌else◌,
}
use auto_perf.Prelude.Count.{select}
use auto_perf.Prelude.Text.{is_within, bare}
use auto_perf.Prelude.Int.{ℤ, pos, or_zero, half, ◌+ℤ◌, ◌-ℤ◌, same_int}

pub record Bounds : Type 0 where
  pub left : ℤ
  pub top : ℤ
  pub right : ℤ
  pub bottom : ℤ

pub record Node : Type 0 where
  pub resource_id : String
  pub text : String
  pub content_desc : String
  pub class_name : String
  pub bounds : Bounds
  pub clickable : Bool
  pub focused : Bool
  pub enabled : Bool
  pub selected : Bool
  pub checked : Bool

abbrev pub center : Node → ℤ × ℤ
center n = (half (n.bounds.left +ℤ n.bounds.right), half (n.bounds.top +ℤ n.bounds.bottom))

abbrev pub area : Node → ℕ
area n = or_zero (n.bounds.right -ℤ n.bounds.left) * or_zero (n.bounds.bottom -ℤ n.bounds.top)

abbrev pub same_bounds : Bounds → Bounds → Bool
same_bounds a b =
    same_int a.left b.left
    && same_int a.top b.top
    && same_int a.right b.right
    && same_int a.bottom b.bottom

pub record Selector : Type 0 where
  pub resource_id : Option String
  pub text : Option String
  pub content_desc : Option String
  pub class_name : Option String
  pub clickable : Option Bool
  pub index : Option ℕ
  pub min_area : Option ℕ
  pub exact : Bool

pub record Target : Type 0 where
  pub selectors : List Selector
  pub fallback : Option (ℕ × ℕ)
  pub name : String
  pub coordinate_only : Bool

pub record Resolution : Type 0 where
  pub point : ℤ × ℤ
  pub strategy : String
  pub selector_index : Option ℕ
  pub node : Option Node

-- SHORT_LABEL_LENGTH
abbrev pub short_label_length : ℕ
short_label_length = 2

abbrev pub text_matches : (String → String) → String → String → Bool → Bool
text_matches lower wanted actual exact =
    wanted == ""
    || (if exact || leb (chars (lower wanted)) short_label_length
        then lower wanted == lower actual
        else is_within (lower wanted) (lower actual))

abbrev pub id_matches : String → String → Bool
id_matches wanted actual = not (actual == "") && (wanted == actual || bare actual == bare wanted)

-- a field that is not given lets every node through
abbrev pub allows {ℓ} : {A : Type ℓ} → Option A → (A → Bool) → Bool
allows none test = true
allows (some a) test = test a

abbrev pub same_bool : Bool → Bool → Bool
same_bool true b = b
same_bool false b = not b

-- `Selector.matches`
unfoldable pub matches : (String → String) → Selector → Node → Bool
matches lower s n =
    allows s.resource_id (λ wanted. id_matches wanted n.resource_id)
    && allows s.text (λ wanted. text_matches lower wanted n.text s.exact)
    && allows s.content_desc (λ wanted. text_matches lower wanted n.content_desc s.exact)
    && allows s.class_name (λ wanted. is_within wanted n.class_name)
    && allows s.clickable (λ wanted. same_bool n.clickable wanted)
    && allows s.min_area (λ least. leb least (area n))

-- `node.area or 1 << 30`
abbrev pub area_key : Node → ℕ
area_key n = if eqb (area n) 0 then 1_073_741_824 else area n

-- `matches[index]`, or `none` where the index is out of range
unfoldable pub nth {ℓ} : {A : Type ℓ} → ℕ → List A → Option A
nth i [] = none
nth zero (x ∷ xs) = some x
nth (suc i) (x ∷ xs) = nth i xs

-- `min(matches, key=...)`: the first of the smallest
unfoldable pub smallest : Node → List Node → Node
smallest best [] = best
smallest best (n ∷ ns) = smallest (if ltb (area_key n) (area_key best) then n else best) ns

abbrev pub candidates : (String → String) → Selector → List Node → List Node
candidates lower s nodes = select (λ n. n.enabled && matches lower s n) nodes

abbrev pub pick : Option ℕ → List Node → Option Node
pick index [] = none
pick none (n ∷ ns) = some (smallest n ns)
pick (some i) (n ∷ ns) = nth i (n ∷ ns)

-- `find`, for the screen's nodes
unfoldable pub find_node : (String → String) → List Node → Selector → Option Node
find_node lower nodes s = pick s.index (candidates lower s nodes)

unfoldable pub strategy_of : Selector → String
strategy_of s =
    if not (is_none s.content_desc)
    then "content_desc"
    else if not (is_none s.resource_id)
    then "resource_id"
    else if not (is_none s.index)
    then "structural"
    else if not (is_none s.class_name)
    then "class"
    else if not (is_none s.text)
    then "text"
    else "unknown"

-- `round(size * fraction)`: a half goes to the even number
abbrev pub scaled : ℕ → ℕ → ℕ
scaled size fraction =
    let down = size * fraction / 1000 in
    let rest = size * fraction % 1000 in
    if ltb rest 500 then down else if eqb rest 500 && eqb (down % 2) 0 then down else suc down

abbrev pub at_coordinates : ℕ × ℕ → Option (ℕ × ℕ) → Option Resolution
at_coordinates screen none = none
at_coordinates (width, height) (some (fx, fy)) = some (record {
  point = (pos (scaled width fx), pos (scaled height fy));
  strategy = "coordinates";
  selector_index = none;
  node = none;
})

abbrev pub by_selector : ℕ → Selector → Node → Resolution
by_selector i s n = record {
  point = center n;
  strategy = strategy_of s;
  selector_index = some i;
  node = some n;
}

-- the loop over the selectors from the i-th on
unfoldable pub resolve_from :
    (String → String) → ℕ → List Selector → Option (ℕ × ℕ) → List Node → ℕ × ℕ → Option Resolution
resolve_from lower i [] fallback nodes screen = at_coordinates screen fallback
resolve_from lower i (s ∷ ss) fallback nodes screen = elim (find_node lower nodes s) [
  | none ↦ resolve_from lower (suc i) ss fallback nodes screen
  | some n ↦ some (by_selector i s n)
]

unfoldable pub resolve : (String → String) → Target → List Node → ℕ × ℕ → Option Resolution
unfolding resolve_from
resolve lower t nodes screen = resolve_from lower 0 t.selectors t.fallback nodes screen
