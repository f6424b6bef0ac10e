-- ===== src/Maps/LmMap/Arrays.antt =====
-- One array of lm_map under lm_map_put and lm_map_del.
use webrtc_caller.Base.{
  ℕ, ◌≡◌, refl, ◌≢◌, ◌⊎◌, inl, inr, Bool, true, Option, none, some, List, arith, ◌==◌,
  if◌then◌else◌, Option-cases,
}
use webrtc_caller.Maps.LmMap.{
  Entry, LmArray, LmMap, Placed, placed, full, put_main, put_extra, put_array, get_main, get_array,
  del_main, del_array,
}
use webrtc_caller.Maps.LmMap.Entries.{
  IsTidy, IsUnique, get_extra-get_main, put_main-written, put_extra-written, put_main-keeps,
  put_extra-keeps, taken, del_main-left, del_main-keeps, del_extra-del_main,
}

pub record IsArray (a : LmArray) : Type 0 where
  pub tidy : IsTidy a.main
  pub tidy_extra : IsTidy a.extra
  pub unique : IsUnique a.main
  pub unique_extra : IsUnique a.extra
  pub apart : (k : ℕ) → (k ≡ 0) ⊎ (get_main k a.main ≡ none) ⊎ (get_main k a.extra ≡ none)

abbrev pub IsValid : LmMap → Type 0
IsValid m = (i : ℕ) → IsArray (m.table i)

pub get_array-lem :
    (a : LmArray) (k : ℕ)
    → IsArray a
    → k ≢ 0
    → get_array a k ≡ (elim (get_main k a.main) [ some v ↦ some v | none ↦ get_main k a.extra ])
unfolding get_array
get_array-lem a k h n = ground (arith, get_extra-get_main k a.extra h.tidy_extra n)

put_array-eq :
    (a : LmArray) (key v : ℕ) (p : Placed)
    → put_main key v a.main ≡ p
    → put_array a key v ≡ (elim p [
      | placed b main' ↦ (record a { main = main' }, b)
      | full ↦ (record a { extra = put_extra key v a.extra }, true)
    ])
unfolding put_array
put_array-eq a key v p e = rw (← e) refl

-- What lm_map_put leaves in the array of a key that has no value yet.
pub record Stored (a : LmArray) (key v : ℕ) (out : LmArray × Bool) : Type 0 where
  pub accepts : out.1 ≡ true
  pub valid : IsArray out.0
  pub reads : (k : ℕ) → k ≢ 0 → get_array out.0 k ≡ (if k == key then some v else get_array a k)

module _ (a : LmArray) (key v : ℕ) (h : IsArray a) (n : key ≢ 0) (m : v ≢ 0)
    (absent_main : get_main key a.main ≡ none) (absent_extra : get_main key a.extra ≡ none) where
  Stored-main :
      (b : Bool) (es : List Entry)
      → put_main key v a.main ≡ placed b es
      → Stored a key v (record a { main = es }, b)
  Stored-main b es e =
      let after : (k : ℕ) → get_main k es ≡ (if k == key then some v else get_main k a.main) =
        λ k. ground (arith, e, put_main-written key v k a.main n m h.tidy absent_main) in
      let accepts : b ≡ true =
        ground (arith, e, put_main-written key v 0 a.main n m h.tidy absent_main) in
      let keeps : IsTidy es × IsUnique es =
        rw e at (put_main-keeps key v a.main n m h.tidy h.unique absent_main) in
      let valid : IsArray (record a { main = es }) = record {
        tidy = keeps.0;
        tidy_extra = h.tidy_extra;
        unique = keeps.1;
        unique_extra = h.unique_extra;
        apart = λ k. ground (arith, after k, h.apart k, absent_extra);
      } in
      record {
        accepts = accepts;
        valid = valid;
        reads = λ k z. ground (
          arith,
          get_array-lem (record a { main = es }) k valid z,
          get_array-lem a k h z,
          after k,
        );
      }

  Stored-extra :
      put_main key v a.main ≡ full
      → Stored a key v (record a { extra = put_extra key v a.extra }, true)
  Stored-extra e =
      let after : (k : ℕ)
          → get_main k (put_extra key v a.extra)
            ≡ (if k == key then some v else get_main k a.extra) =
        λ k. put_extra-written key v k a.extra m h.tidy_extra absent_extra in
      let keeps = put_extra-keeps key v a.extra n m h.tidy_extra h.unique_extra absent_extra in
      let valid : IsArray (record a { extra = put_extra key v a.extra }) = record {
        tidy = h.tidy;
        tidy_extra = keeps.0;
        unique = h.unique;
        unique_extra = keeps.1;
        apart = λ k. ground (arith, after k, h.apart k, absent_main);
      } in
      record {
        accepts = refl;
        valid = valid;
        reads = λ k z. ground (
          arith,
          get_array-lem (record a { extra = put_extra key v a.extra }) k valid z,
          get_array-lem a k h z,
          after k,
          absent_main,
        );
      }

pub put_array-Stored :
    (a : LmArray) (key v : ℕ)
    → IsArray a
    → key ≢ 0
    → v ≢ 0
    → get_array a key ≡ none
    → Stored a key v (put_array a key v)
put_array-Stored a key v h n m absent = go (put_main key v a.main) refl
  where
    none_main : get_main key a.main ≡ none
    none_main = ground (arith, get_array-lem a key h n, absent)

    none_extra : get_main key a.extra ≡ none
    none_extra = ground (arith, get_array-lem a key h n, absent)

    go : (p : Placed) → put_main key v a.main ≡ p → Stored a key v (put_array a key v)
    go (placed b es) e =
        rw (put_array-eq a key v (placed b es) e)
          (Stored-main a key v h n m none_main none_extra b es e)
    go full e = rw (put_array-eq a key v full e) (Stored-extra a key v h n m none_main none_extra e)

-- What lm_map_del leaves in the array of the key.
abbrev pub kept : LmArray → Option (LmArray × ℕ) → LmArray
kept a none = a
kept a (some (a', v)) = a'

pub record Emptied (a : LmArray) (key : ℕ) (out : Option (LmArray × ℕ)) : Type 0 where
  pub valid : IsArray (kept a out)
  pub value : taken out ≡ get_array a key
  pub reads :
      (k : ℕ) → k ≢ 0 → get_array (kept a out) k ≡ (if k == key then none else get_array a k)

module _ (a : LmArray) (key : ℕ) (h : IsArray a) (n : key ≢ 0) where
  Emptied-main :
      (es : List Entry) (v : ℕ)
      → del_main key a.main ≡ some (es, v)
      → Emptied a key (some (record a { main = es }, v))
  Emptied-main es v e =
      let after : (k : ℕ) → get_main k es ≡ (if k == key then none else get_main k a.main) =
        λ k. ground (arith, e, del_main-left key k a.main n h.unique) in
      let found : get_main key a.main ≡ some v =
        ground (arith, e, del_main-left key 0 a.main n h.unique) in
      let keeps : IsTidy es × IsUnique es = rw e at (del_main-keeps key a.main n h.tidy h.unique) in
      let valid : IsArray (record a { main = es }) = record {
        tidy = keeps.0;
        tidy_extra = h.tidy_extra;
        unique = keeps.1;
        unique_extra = h.unique_extra;
        apart = λ k. ground (arith, after k, h.apart k);
      } in
      record {
        valid = valid;
        value = ground (arith, found, get_array-lem a key h n);
        reads = λ k z. ground (
          arith,
          get_array-lem (record a { main = es }) k valid z,
          get_array-lem a k h z,
          after k,
          found,
          h.apart key,
        );
      }

  Emptied-extra :
      (es : List Entry) (v : ℕ)
      → del_main key a.main ≡ none
      → del_main key a.extra ≡ some (es, v)
      → Emptied a key (some (record a { extra = es }, v))
  Emptied-extra es v none_main e =
      let after : (k : ℕ) → get_main k es ≡ (if k == key then none else get_main k a.extra) =
        λ k. ground (arith, e, del_main-left key k a.extra n h.unique_extra) in
      let found : get_main key a.extra ≡ some v =
        ground (arith, e, del_main-left key 0 a.extra n h.unique_extra) in
      let missing : get_main key a.main ≡ none =
        ground (arith, none_main, del_main-left key 0 a.main n h.unique) in
      let keeps : IsTidy es × IsUnique es =
        rw e at (del_main-keeps key a.extra n h.tidy_extra h.unique_extra) in
      let valid : IsArray (record a { extra = es }) = record {
        tidy = h.tidy;
        tidy_extra = keeps.0;
        unique = h.unique;
        unique_extra = keeps.1;
        apart = λ k. ground (arith, after k, h.apart k);
      } in
      record {
        valid = valid;
        value = ground (arith, found, missing, get_array-lem a key h n);
        reads = λ k z. ground (
          arith,
          get_array-lem (record a { extra = es }) k valid z,
          get_array-lem a k h z,
          after k,
          missing,
        );
      }

  Emptied-none : del_main key a.main ≡ none → del_main key a.extra ≡ none → Emptied a key none
  Emptied-none e e' =
      let missing : get_main key a.main ≡ none =
        ground (arith, e, del_main-left key 0 a.main n h.unique) in
      let missing' : get_main key a.extra ≡ none =
        ground (arith, e', del_main-left key 0 a.extra n h.unique_extra) in
      record {
        valid = h;
        value = ground (arith, missing, missing', get_array-lem a key h n);
        reads = λ k z. ground (arith, get_array-lem a k h z, missing, missing');
      }

  pub del_array-Emptied : Emptied a key (del_array a key)
  unfolding del_array
  del_array-Emptied =
      let same = del_extra-del_main key a.extra n h.tidy_extra in
      elim (Option-cases (del_main key a.main)) [
        | inr ((es, v), e) ↦ rw (e, del_array) (Emptied-main es v e)
        | inl e ↦ elim (Option-cases (del_main key a.extra)) [
          | inr ((es, v), e') ↦ rw (e, same, e', del_array) (Emptied-extra es v e e')
          | inl e' ↦ rw (e, same, e', del_array) (Emptied-none e e')
        ]
      ]
