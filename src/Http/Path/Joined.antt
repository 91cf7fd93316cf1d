-- ===== src/Http/Path/Joined.antt =====
-- What a joined URL is made of.
use text.Mathlib.TextLemmas.{nil-append, cons-append}
use Prim.Native.String
use mathlib.Core.Path.{subst}
use first_principles.Base.Texts.{size, slice_to}
use first_principles.Base.{
  ◌≡◌, refl, sym, ap, ◌∙◌, ◌⊎◌, inl, inr, ℕ, zero, suc, Char, String, code, Bool, true, false, ◌&&◌,
  ◌==◌, if◌then◌else◌, Bool-cases, arith,
}
use first_principles.Http.Path.{slash, slash_at, trim_end, strip_trailing_slashes, join_url}

-- A text of slashes only, and one that ends with a slash.
unfoldable pub all_slashes : String → Bool
all_slashes String.[] = true
all_slashes (String.◌∷◌ c s) = code c == slash && all_slashes s

unfoldable pub ends_in_slash : String → Bool
ends_in_slash String.[] = false
ends_in_slash (String.◌∷◌ c String.[]) = code c == slash
ends_in_slash (String.◌∷◌ c (String.◌∷◌ d s)) = ends_in_slash (String.◌∷◌ d s)

-- The first part without the slashes at the end.
pub record Stripped (value core : String) : Type 0 where
  pub slashes : String
  pub split : value ≡ String.◌++◌ core slashes
  pub only : all_slashes slashes ≡ true
  pub bare : ends_in_slash core ≡ false

trim_end-cons :
    (c : Char) (s : String) (e : ℕ)
    → trim_end (String.◌∷◌ c s) (suc e)
      ≡ (if trim_end s e == 0 && code c == slash then 0 else suc (trim_end s e))
unfolding trim_end slash_at
trim_end-cons c s zero = ground arith
trim_end-cons c s (suc e) = ground (arith, trim_end-cons c s e)

bare-kept :
    (c d : Char) (s : String) (t : ℕ)
    → t == 0 && code c == slash ≡ false
    → ends_in_slash (slice_to t (String.◌∷◌ d s)) ≡ false
    → ends_in_slash (String.◌∷◌ c (slice_to t (String.◌∷◌ d s))) ≡ false
unfolding slice_to ends_in_slash
bare-kept c d s zero h bare = ground (arith, h)
bare-kept c d s (suc m) h bare = bare

bare-cons :
    (c : Char) (s : String)
    → trim_end s (size s) == 0 && code c == slash ≡ false
    → ends_in_slash (slice_to (trim_end s (size s)) s) ≡ false
    → ends_in_slash (String.◌∷◌ c (slice_to (trim_end s (size s)) s)) ≡ false
unfolding trim_end size slice_to ends_in_slash
bare-cons c String.[] h bare = ground (arith, h)
bare-cons c (String.◌∷◌ d s) h bare =
    bare-kept c d s (trim_end (String.◌∷◌ d s) (size (String.◌∷◌ d s))) h bare

slice_to-Stripped : (s : String) → Stripped s (slice_to (trim_end s (size s)) s)
unfolding size slice_to all_slashes ends_in_slash trim_end
slice_to-Stripped String.[] = record {
  slashes = "";
  split = sym (nil-append "");
  only = refl;
  bare = refl;
}
slice_to-Stripped (String.◌∷◌ c s) =
    let t = trim_end s (size s) in
    let rest = slice_to-Stripped s in
    elim (Bool-cases (t == 0 && code c == slash)) [
      | inl both ↦
          let gone : t ≡ 0 = ground (arith, both) in
          let nothing : trim_end (String.◌∷◌ c s) (suc (size s)) ≡ 0 =
            trim_end-cons c s (size s) ∙ ap (λ b. if b then 0 else suc t) both in
          let core : slice_to t s ≡ "" = ap (λ e. slice_to e s) gone in
          let whole : s ≡ rest.slashes =
            rest.split ∙ (ap (λ x. String.◌++◌ x rest.slashes) core ∙ nil-append rest.slashes) in
          let slashes : all_slashes s ≡ true = ap all_slashes whole ∙ rest.only in
          subst (λ e. Stripped (String.◌∷◌ c s) (slice_to e (String.◌∷◌ c s))) (sym nothing)
            (record {
              slashes = String.◌∷◌ c s;
              split = sym (nil-append (String.◌∷◌ c s));
              only = ground (arith, both, slashes);
              bare = refl;
            })
      | inr one ↦
          let end : trim_end (String.◌∷◌ c s) (suc (size s)) ≡ suc t =
            trim_end-cons c s (size s) ∙ ap (λ b. if b then 0 else suc t) one in
          subst (λ e. Stripped (String.◌∷◌ c s) (slice_to e (String.◌∷◌ c s))) (sym end)
            (record {
              slashes = rest.slashes;
              split =
                  ap (λ x. String.◌∷◌ c x) rest.split
                  ∙ sym (cons-append c (slice_to t s) rest.slashes);
              only = rest.only;
              bare = bare-cons c s one rest.bare;
            })
    ]

slash-added : (path : String) → slash_at (String.◌++◌ "/" path) 0 ≡ true
unfolding slash_at
slash-added path = ap (λ s. slash_at s 0) (cons-append "/" "" path)

-- What follows the base: the path if it starts with a slash, and otherwise a slash and the path.
pub Follows : String → String → Type 0
Follows path tail =
    (slash_at tail 0 ≡ true)
    × ((tail ≡ path) ⊎ ((slash_at path 0 ≡ false) × (tail ≡ String.◌++◌ "/" path)))

Follows-tail :
    (path : String) → Follows path (if slash_at path 0 then path else String.◌++◌ "/" path)
unfolding Follows
Follows-tail path = elim (Bool-cases (slash_at path 0)) [
  | inl there ↦ rw there (there, inl refl)
  | inr lacks ↦ rw lacks (slash-added path, inr (refl, refl))
]

-- A joined URL consists of the base without the slashes at its end, however many there are, and of the path, before
-- which a slash is put if it has none: the two parts meet at a slash, and the base does not end in one.
pub join_url-Stripped :
    (base_url path : String)
    → (core : String) × Stripped base_url core
      × ((tail : String) × Follows path tail × (join_url base_url path ≡ String.◌++◌ core tail))
unfolding join_url strip_trailing_slashes
join_url-Stripped base_url path = (
  slice_to (trim_end base_url (size base_url)) base_url,
  slice_to-Stripped base_url,
  (if slash_at path 0 then path else String.◌++◌ "/" path, Follows-tail path, refl),
)
