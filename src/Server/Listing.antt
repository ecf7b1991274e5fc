-- ===== src/Server/Listing.antt =====
-- Lists of sockets without repetition.
pub mod Kept
pub mod Searching
pub mod Removing
pub mod Life
use node_ipc.Base.{
  ◌≡◌, refl, sym, ap, ◌∙◌, ℕ, suc, ◌<◌, Bool, true, false, not, ◌&&◌, ◌||◌, List, [], ◌∷◌, ◌++◌,
  ◌==◌, if◌then◌else◌, arith,
}
use node_ipc.Server.Sockets.{member, remove_first}

pub data IsDistinct : List ℕ → Type 0 where
  nothing_listed : IsDistinct []
  one_more : {k : ℕ} {ks : List ℕ} → member k ks ≡ false → IsDistinct ks → IsDistinct (k ∷ ks)

pub member-append : (j k : ℕ) (ks : List ℕ) → member j (ks ++ k ∷ []) ≡ (member j ks || k == j)
unfolding member
member-append j k [] = ground arith
member-append j k (i ∷ is) = ground (arith, member-append j k is)

pub member-remove_first :
    (j k : ℕ) {ks : List ℕ}
    → IsDistinct ks
    → member j (remove_first k ks) ≡ (member j ks && not (k == j))
unfolding member remove_first
member-remove_first j k nothing_listed = refl
member-remove_first j k (one_more {k = i} {ks = is} fresh rest) =
    ground (arith, fresh, member-remove_first j k rest)

pub append-IsDistinct :
    (k : ℕ) {ks : List ℕ} → member k ks ≡ false → IsDistinct ks → IsDistinct (ks ++ k ∷ [])
unfolding member
append-IsDistinct k h nothing_listed = one_more refl nothing_listed
append-IsDistinct k h (one_more {k = i} {ks = is} fresh rest) =
    one_more (ground (arith, h, fresh, member-append i k is))
      (append-IsDistinct k (ground (arith, h)) rest)

pub remove_first-IsDistinct : (k : ℕ) {ks : List ℕ} → IsDistinct ks → IsDistinct (remove_first k ks)
unfolding member remove_first
remove_first-IsDistinct k nothing_listed = nothing_listed
remove_first-IsDistinct k (one_more {k = i} {ks = is} fresh rest) =
    go (i == k) (remove_first-IsDistinct k rest)
  where
    go :
        (b : Bool)
        → IsDistinct (remove_first k is)
        → IsDistinct (let later = remove_first k is in if b then is else i ∷ later)
    go true later = rest
    go false later = one_more (ground (arith, fresh, member-remove_first i k rest)) later
