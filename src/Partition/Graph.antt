-- ===== src/Partition/Graph.antt =====
-- `partition_graph`: the atoms whose rows stay among the owned atoms, and how far that reaches.
use dmg_md.Base.{
  ℕ, zero, suc, Bool, false, not, ◌&&◌, ◌||◌, List, [], ◌∷◌, Result, ok, ◌>>◌, throw_if, length,
  get_or, set, replicate, flag, ◌==◌, if◌then◌else◌,
}
use dmg_md.Base.Int.{ℤ, pos, pos_part, ltb_ℤ, eqb_ℤ}

pub data GraphError : Type 0 where
  bad_graph_shape bad_neighbor : GraphError

-- 1 for the atoms that are in, by slot.
pub record HostDomainPartition : Type 0 where
  pub safe : List ℕ
  pub interior : List ℕ
  pub early : List ℕ

abbrev pub row_of : List (List ℤ) → ℕ → List ℤ
row_of rows c = get_or rows c []

-- A neighbour outside of [0, local), or the atom itself.
unfoldable pub has_bad_neighbor : ℕ → ℕ → List ℤ → Bool
has_bad_neighbor local c [] = false
has_bad_neighbor local c (j ∷ js) =
    ltb_ℤ j (pos 0) || not (ltb_ℤ j (pos local)) || eqb_ℤ j (pos c) || has_bad_neighbor local c js

-- The loops over c run over the first n atoms; the last of them is the outermost call.
unfoldable pub check_rows : List (List ℤ) → ℕ → ℕ → Result GraphError (Unit {0})
check_rows rows local zero = ok tt
check_rows rows local (suc c) = do
  check_rows rows local c
  throw_if (has_bad_neighbor local c (row_of rows c)) bad_neighbor

unfoldable pub settle : ℕ → ℕ → List ℤ → List ℕ → List ℕ
settle owned c [] safe = safe
settle owned c (j ∷ js) safe =
    settle owned c js (if ltb_ℤ j (pos owned) then safe else set safe c 0)

unfoldable pub find_safe : List (List ℤ) → ℕ → ℕ → List ℕ → List ℕ
find_safe rows owned zero safe = safe
find_safe rows owned (suc c) safe =
    settle owned c (row_of rows c) (set (find_safe rows owned c safe) c 1)

-- `closed` at the end of its loop.
unfoldable pub closes : List ℕ → Bool → List ℤ → Bool
closes safe closed [] = closed
closes safe closed (j ∷ js) = closes safe (closed && not (flag safe (pos_part j) == 0)) js

unfoldable pub mark : List ℤ → List ℕ → List ℕ
mark [] early = early
mark (j ∷ js) early = mark js (set early (pos_part j) 1)

unfoldable pub find_interior : List (List ℤ) → ℕ → HostDomainPartition → HostDomainPartition
find_interior rows zero p = p
find_interior rows (suc c) p =
    let before = find_interior rows c p in
    if closes before.safe (not (flag before.safe c == 0)) (row_of rows c)
    then record {
      safe = before.safe;
      interior = set before.interior c 1;
      early = mark (row_of rows c) (set before.early c 1);
    }
    else before

unfoldable pub partition_graph : List (List ℤ) → ℤ → ℤ → ℤ → Result GraphError HostDomainPartition
partition_graph rows owned dependency local = do
  throw_if
      (ltb_ℤ owned (pos 0)
        || ltb_ℤ dependency owned
        || ltb_ℤ local dependency
        || not (length rows == pos_part dependency))
      bad_graph_shape
  check_rows rows (pos_part local) (pos_part dependency)
  let none_of = replicate (pos_part local) 0
  ok (
      find_interior rows (pos_part owned) (record {
        safe = find_safe rows (pos_part owned) (pos_part owned) none_of;
        interior = none_of;
        early = none_of;
      }))
