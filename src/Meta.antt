-- ===== src/Meta.antt =====
-- The computations on types of sys/meta and what sys/AlignedStorage.h makes of them: a type is its
-- unqualified type, the qualifiers of that or of what is referred to, and the kind of its reference.
-- `B` has the unqualified types, none of them an array or a function type.
pub mod Laws
use libcxxext.Prelude.{
  ℕ, suc, ◌+◌, max, Bool, true, false, not, ◌&&◌, ◌||◌, List, [], ◌∷◌, ◌++◌, if◌then◌else◌,
  get_elem?, Option, none, some,
}

pub data Reference : Type 0 where
  no_reference lvalue rvalue : Reference

pub record CppType (B : Type 0) : Type 0 where
  pub base : B
  pub is_const : Bool
  pub is_volatile : Bool
  pub reference : Reference

abbrev pub is_reference : Reference → Bool
is_reference no_reference = false
is_reference _ = true

module _ {B : Type 0} where
  -- The traits of the standard library; a reference has no qualifiers of its own and takes none.
  abbrev pub remove_reference : CppType B → CppType B
  remove_reference t = record t { reference = no_reference }

  abbrev pub remove_cvref : CppType B → CppType B
  remove_cvref t = record {
    base = t.base;
    is_const = false;
    is_volatile = false;
    reference = no_reference;
  }

  abbrev pub has_const : CppType B → Bool
  has_const t = not (is_reference t.reference) && t.is_const

  abbrev pub has_volatile : CppType B → Bool
  has_volatile t = not (is_reference t.reference) && t.is_volatile

  abbrev pub add_const : CppType B → CppType B
  add_const t = if is_reference t.reference then t else record t { is_const = true }

  abbrev pub add_volatile : CppType B → CppType B
  add_volatile t = if is_reference t.reference then t else record t { is_volatile = true }

  -- `type<T>::is_unqualified`: `T` is its own `std::remove_cvref_t`.
  unfoldable pub is_unqualified : CppType B → Bool
  is_unqualified t = not (is_reference t.reference) && not t.is_const && not t.is_volatile

  unfoldable pub replace_cv : CppType B → CppType B → CppType B
  replace_cv t with_type =
      if has_const (remove_reference with_type)
      then add_const (
          if has_volatile (remove_reference with_type)
          then add_volatile (remove_cvref t)
          else remove_cvref t)
      else if has_volatile (remove_reference with_type)
      then add_volatile (remove_cvref t)
      else remove_cvref t

module _ {ℓ} {T : Type ℓ} where
  -- `parameter_pack<Pack...>`, with `same` for `std::same_as`; an index out of range is ill-formed.
  abbrev pub at : List T → ℕ → Option T
  at pack index = get_elem? pack index

  unfoldable pub contains : (T → T → Bool) → List T → T → Bool
  contains same [] t = false
  contains same (p ∷ pack) t = same t p || contains same pack t

  -- `type_switch_cases<Cases...>`, of a condition and a type each
  unfoldable pub return_cases : List (Bool × T) → List (Bool × T)
  return_cases [] = []
  return_cases ((condition, t) ∷ cases) =
      (if condition then (condition, t) ∷ [] else []) ++ return_cases cases

  unfoldable pub count_returns : List (Bool × T) → ℕ
  count_returns [] = 0
  count_returns ((condition, t) ∷ cases) = (if condition then 1 else 0) + count_returns cases

  -- `type_switch<Cases...>`, which is ill-formed when no case meets its condition
  abbrev pub type_of_case : Bool × T → T
  type_of_case c = c.1

  unfoldable pub type_switch : List (Bool × T) → Option T
  type_switch cases = elim (return_cases cases) [ [] ↦ none | c ∷ cs ↦ some (type_of_case c) ]

-- `aligned_storage<Ts...>`: the bytes of `mem`, by the sizes of the types.
unfoldable pub storage_size : List ℕ → ℕ
storage_size [] = 0
storage_size (size ∷ sizes) = max size (storage_size sizes)
