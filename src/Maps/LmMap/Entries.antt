-- ===== src/Maps/LmMap/Entries.antt =====
-- The loops of lm_map over the entries of one array.
use webrtc_caller.Base.{
  ℕ, ◌≡◌, refl, ◌≢◌, ◌⊎◌, Bool, true, Option, none, some, List, [], ◌∷◌, arith, ◌==◌, if◌then◌else◌,
}
use webrtc_caller.Maps.LmMap.{
  Entry, Placed, placed, full, put_main, put_extra, get_main, get_extra, del_main, del_extra,
}

-- An entry is empty in both parts or in none.
abbrev pub IsTidy : List Entry → Type 0
IsTidy [] = Unit {0}
IsTidy (e ∷ es) = ((e.key == 0) ≡ (e.value == 0)) × IsTidy es

-- No key stands in two entries.
abbrev pub IsUnique : List Entry → Type 0
IsUnique [] = Unit {0}
IsUnique (e ∷ es) = ((e.key ≡ 0) ⊎ (get_main e.key es ≡ none)) × IsUnique es

pub get_extra-get_main :
    (k : ℕ) (es : List Entry) → IsTidy es → k ≢ 0 → get_extra k es ≡ get_main k es
unfolding get_extra get_main
get_extra-get_main k [] t n = refl
get_extra-get_main k (e ∷ es) t n = ground (arith, get_extra-get_main k es)

abbrev pub written : ℕ → Option ℕ → Placed → Option ℕ
written k d full = d
written k d (placed b es) = get_main k es

abbrev pub accepted : Placed → Bool
accepted full = true
accepted (placed b es) = b

pub put_main-written :
    (key v k : ℕ) (es : List Entry)
    → key ≢ 0
    → v ≢ 0
    → IsTidy es
    → get_main key es ≡ none
    → (accepted (put_main key v es) ≡ true)
      × (written k (if k == key then some v else get_main k es) (put_main key v es)
          ≡ (if k == key then some v else get_main k es))
unfolding put_main get_main
put_main-written key v k [] n m t a = (refl, refl)
put_main-written key v k (e ∷ es) n m t a = ground (arith, put_main-written key v k es)

pub put_extra-written :
    (key v k : ℕ) (es : List Entry)
    → v ≢ 0
    → IsTidy es
    → get_main key es ≡ none
    → get_main k (put_extra key v es) ≡ (if k == key then some v else get_main k es)
unfolding put_extra get_main
put_extra-written key v k [] m t a = ground arith
put_extra-written key v k (e ∷ es) m t a = ground (arith, put_extra-written key v k es)

abbrev pub Each : (List Entry → Type 0) → Placed → Type 0
Each P full = Unit {0}
Each P (placed b es) = P es

pub put_main-keeps :
    (key v : ℕ) (es : List Entry)
    → key ≢ 0
    → v ≢ 0
    → IsTidy es
    → IsUnique es
    → get_main key es ≡ none
    → Each (λ es'. IsTidy es' × IsUnique es') (put_main key v es)
unfolding put_main get_main
put_main-keeps key v [] n m t u a = tt
put_main-keeps key v (e ∷ es) n m t u a =
    ground (arith, put_main-keeps key v es, put_main-written key v e.key es)

pub put_extra-keeps :
    (key v : ℕ) (es : List Entry)
    → key ≢ 0
    → v ≢ 0
    → IsTidy es
    → IsUnique es
    → get_main key es ≡ none
    → IsTidy (put_extra key v es) × IsUnique (put_extra key v es)
unfolding put_extra get_main
put_extra-keeps key v [] n m t u a = ground arith
put_extra-keeps key v (e ∷ es) n m t u a =
    ground (arith, put_extra-keeps key v es, put_extra-written key v e.key es)

-- What is read after a loop of the deletion, and what the loop found.
abbrev pub left : ℕ → List Entry → Option (List Entry × ℕ) → Option ℕ
left k es none = get_main k es
left k es (some (es', v)) = get_main k es'

abbrev pub taken {ℓ} : {A : Type ℓ} → Option (A × ℕ) → Option ℕ
taken none = none
taken (some (es, v)) = some v

abbrev pub Remains : (List Entry → Type 0) → Option (List Entry × ℕ) → Type 0
Remains P none = Unit {0}
Remains P (some (es, v)) = P es

pub del_main-left :
    (key k : ℕ) (es : List Entry)
    → key ≢ 0
    → IsUnique es
    → (left k es (del_main key es) ≡ (if k == key then none else get_main k es))
      × (taken (del_main key es) ≡ get_main key es)
unfolding del_main get_main
del_main-left key k [] n u = ground arith
del_main-left key k (e ∷ es) n u = ground (arith, del_main-left key k es)

pub del_main-keeps :
    (key : ℕ) (es : List Entry)
    → key ≢ 0
    → IsTidy es
    → IsUnique es
    → Remains (λ es'. IsTidy es' × IsUnique es') (del_main key es)
unfolding del_main get_main
del_main-keeps key [] n t u = tt
del_main-keeps key (e ∷ es) n t u =
    ground (arith, del_main-keeps key es, del_main-left key e.key es)

pub del_extra-del_main :
    (key : ℕ) (es : List Entry) → key ≢ 0 → IsTidy es → del_extra key es ≡ del_main key es
unfolding del_extra del_main
del_extra-del_main key [] n t = refl
del_extra-del_main key (e ∷ es) n t = ground (arith, del_extra-del_main key es)
