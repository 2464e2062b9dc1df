-- ===== src/Memory/Fields.antt =====
-- Structs: `*out = *in`, after which one, two or three fields are copied in their order. The copy is
-- independent when that of each field is, and `see` sees a struct field by field.
use eks_financial_orchestrat.Common.{◌≡◌, sym, ◌∙◌, some}
use eks_financial_orchestrat.Memory.{Heap, M, or_fault, return, ◌>>=◌}
use eks_financial_orchestrat.Memory.View.{R}
use eks_financial_orchestrat.Memory.Laws.{
  IsDeep, IsStable, some_of, bind-IsStable, Makes-bind, Makes-return,
}

-- What is seen of a struct, when `make` puts together what is seen of its fields.
module _ {C A V W : Type 0} (view : A → R C V) where
  abbrev pub see1 : (V → W) → A → R C W
  see1 make x g = or_fault (λ v. some (make v)) (view x g)

  see1-IsStable : (make : V → W) (x : A) → IsStable (view x) → IsStable (see1 make x)
  see1-IsStable make x stable = bind-IsStable (view x) _ stable λ v h g w same e. e

module _ {C A B V U W : Type 0} (view : A → R C V) (view' : B → R C U) where
  abbrev pub see2 : (V → U → W) → A → B → R C W
  see2 make x y g = or_fault (λ v. see1 view' (make v) y g) (view x g)

  see2-IsStable :
      (make : V → U → W) (x : A) (y : B)
      → IsStable (view x)
      → IsStable (view' y)
      → IsStable (see2 make x y)
  see2-IsStable make x y stable stable' =
      bind-IsStable (view x) _ stable λ v. see1-IsStable view' (make v) y stable'

module _ {C A B D V U T W : Type 0} (view : A → R C V) (view' : B → R C U)
    (view'' : D → R C T) where
  abbrev pub see3 : (V → U → T → W) → A → B → D → R C W
  see3 make x y z g = or_fault (λ v. see2 view' view'' (make v) y z g) (view x g)

  see3-IsStable :
      (make : V → U → T → W) (x : A) (y : B) (z : D)
      → IsStable (view x)
      → IsStable (view' y)
      → IsStable (view'' z)
      → IsStable (see3 make x y z)
  see3-IsStable make x y z stable stable' stable'' =
      bind-IsStable (view x) _ stable λ v. see2-IsStable view' view'' (make v) y z stable' stable''

module _ {C S A V W : Type 0} {copy : A → M C A} {view : A → R C V} (get : S → A) (set : S → A → S)
    (make : S → V → W) (see : S → R C W) where
  pub fields1-IsDeep :
      ((s : S) (g : Heap C) → see s g ≡ see1 view (make s) (get s) g)
      → ((s : S) (x : A) (g : Heap C) → see (set s x) g ≡ see1 view (make s) x g)
      → IsDeep copy view
      → IsDeep (λ s. copy (get s) >>= λ x. return (set s x)) see
  fields1-IsDeep is_see see_set (stable, copies) = (
    (λ s h g w same e.
        is_see s g
        ∙ see1-IsStable view (make s) (get s) (stable (get s)) h g w same (sym (is_see s h) ∙ e)),
    λ h s w e.
        let (v, seen_v, is_w) = some_of _ (view (get s) h) w (sym (is_see s h) ∙ e) in
        Makes-bind h (copy (get s)) _ (copies h (get s) v seen_v)
          λ x h1 _ _. Makes-return h1 (set s x) λ g see_x. see_set s x g ∙ rw see_x is_w,
  )

module _ {C S A B V U W : Type 0} {copy : A → M C A} {copy' : B → M C B} {view : A → R C V}
    {view' : B → R C U} (get : S → A) (get' : S → B) (set : S → A → B → S) (make : S → V → U → W)
    (see : S → R C W) where
  pub fields2-IsDeep :
      ((s : S) (g : Heap C) → see s g ≡ see2 view view' (make s) (get s) (get' s) g)
      → ((s : S) (x : A) (y : B) (g : Heap C) → see (set s x y) g ≡ see2 view view' (make s) x y g)
      → IsDeep copy view
      → IsDeep copy' view'
      → IsDeep (λ s. copy (get s) >>= λ x. copy' (get' s) >>= λ y. return (set s x y)) see
  fields2-IsDeep is_see see_set (stable, copies) (stable', copies') = (
    (λ s h g w same e.
        is_see s g
        ∙ see2-IsStable view view' (make s) (get s) (get' s) (stable (get s)) (stable' (get' s)) h g
            w same (sym (is_see s h) ∙ e)),
    λ h s w e.
        let (v, seen_v, rest) = some_of _ (view (get s) h) w (sym (is_see s h) ∙ e) in
        let (u, seen_u, is_w) = some_of _ (view' (get' s) h) w rest in
        Makes-bind h (copy (get s)) _ (copies h (get s) v seen_v) λ x h1 _ same.
          Makes-bind h1 (copy' (get' s)) _
            (copies' h1 (get' s) u (stable' (get' s) h h1 u same seen_u))
            λ y h2 _ _.
              Makes-return h2 (set s x y) λ g see_y see_x. see_set s x y g ∙ rw (see_x, see_y) is_w,
  )

module _ {C S A B D V U T W : Type 0} {copy : A → M C A} {copy' : B → M C B} {copy'' : D → M C D}
    {view : A → R C V} {view' : B → R C U} {view'' : D → R C T} (get : S → A) (get' : S → B)
    (get'' : S → D) (set : S → A → B → D → S) (make : S → V → U → T → W) (see : S → R C W) where
  pub fields3-IsDeep :
      ((s : S) (g : Heap C)
        → see s g ≡ see3 view view' view'' (make s) (get s) (get' s) (get'' s) g)
      → ((s : S) (x : A) (y : B) (z : D) (g : Heap C)
          → see (set s x y z) g ≡ see3 view view' view'' (make s) x y z g)
      → IsDeep copy view
      → IsDeep copy' view'
      → IsDeep copy'' view''
      → IsDeep
          (λ s. copy (get s) >>= λ x.
            copy' (get' s) >>= λ y. copy'' (get'' s) >>= λ z. return (set s x y z))
          see
  fields3-IsDeep is_see see_set (stable, copies) (stable', copies') (stable'', copies'') = (
    (λ s h g w same e.
        is_see s g
        ∙ see3-IsStable view view' view'' (make s) (get s) (get' s) (get'' s) (stable (get s))
            (stable' (get' s)) (stable'' (get'' s)) h g w same (sym (is_see s h) ∙ e)),
    λ h s w e.
        let (v, seen_v, rest) = some_of _ (view (get s) h) w (sym (is_see s h) ∙ e) in
        let (u, seen_u, rest') = some_of _ (view' (get' s) h) w rest in
        let (t, seen_t, is_w) = some_of _ (view'' (get'' s) h) w rest' in
        Makes-bind h (copy (get s)) _ (copies h (get s) v seen_v) λ x h1 up same.
          Makes-bind h1 (copy' (get' s)) _
            (copies' h1 (get' s) u (stable' (get' s) h h1 u same seen_u))
            λ y h2 _ same'.
              Makes-bind h2 (copy'' (get'' s)) _
                (copies'' h2 (get'' s) t
                  (stable'' (get'' s) h1 h2 t same' (stable'' (get'' s) h h1 t same seen_t)))
                λ z h3 _ _.
                  Makes-return h3 (set s x y z)
                    λ g see_z see_y see_x. see_set s x y z g ∙ rw (see_x, see_y, see_z) is_w,
  )
