-- ===== src/Leaf/Split/Siblings.antt =====
-- The links that a split writes.
use rarm_db.Base.{ℕ, ◌^◌, ◌<◌, ◌≡◌, refl, ap, sym, ◌∙◌, some, arith, inl, inr, done, Returns}
use rarm_db.Page.{next_sibling_offset, prev_sibling_offset}
use rarm_db.Page.Shape.{IsSlotted}
use rarm_db.Leaf.{LeafNodeView, link_of, word_of, get_next_leaf_index, get_prev_leaf_index}
use rarm_db.Leaf.Links.{
  Relinks, linked, linked-Relinks, set_next_leaf_index_lem, set_prev_leaf_index_lem,
  get_next_leaf_index_lem, get_prev_leaf_index_lem, u32_at-linked_self, u32_at-linked_apart,
  word_of-link_of,
}
use rarm_db.Leaf.Ops.Merging.Relinks.{Follows, set_prev_of-Follows}
use rarm_db.Leaf.Split.{Split, link_siblings}

-- The leaves of `s'` are those of `s` with the right one linked in after the left one; `v` is the
-- word of the next link.
pub record Linked (s s' : Split) (v : ℕ) : Type 0 where
  pub left_same : Relinks s.left s'.left
  pub right_same : Relinks s.right s'.right
  pub left_next : get_next_leaf_index s'.left ≡ done (link_of s.right.page_id.page_index)
  pub left_prev : get_prev_leaf_index s'.left ≡ get_prev_leaf_index s.left
  pub right_next : get_next_leaf_index s'.right ≡ done (link_of v)
  pub right_prev : get_prev_leaf_index s'.right ≡ done (link_of s.left.page_id.page_index)
  pub follows : Follows s.right.page_id.page_index s.orig_right s'.orig_right

module _ (l : LeafNodeView) (off v : ℕ) where
  next-linked_self :
      off ≡ next_sibling_offset
      → v < 2 ^ 32
      → get_next_leaf_index (linked l off v) ≡ done (link_of v)
  next-linked_self e h = rw e (
      get_next_leaf_index_lem (linked l next_sibling_offset v)
      ∙ ap (λ w. done (link_of w)) (u32_at-linked_self l next_sibling_offset v h))

  prev-linked_self :
      off ≡ prev_sibling_offset
      → v < 2 ^ 32
      → get_prev_leaf_index (linked l off v) ≡ done (link_of v)
  prev-linked_self e h = rw e (
      get_prev_leaf_index_lem (linked l prev_sibling_offset v)
      ∙ ap (λ w. done (link_of w)) (u32_at-linked_self l prev_sibling_offset v h))

prev-linked_next :
    (l : LeafNodeView) (v : ℕ)
    → get_prev_leaf_index (linked l next_sibling_offset v) ≡ get_prev_leaf_index l
prev-linked_next l v =
    get_prev_leaf_index_lem (linked l next_sibling_offset v)
    ∙ ap (λ w. done (link_of w))
        (u32_at-linked_apart l next_sibling_offset v prev_sibling_offset (inl (omega arith)))
    ∙ sym (get_prev_leaf_index_lem l)

next-linked_prev :
    (l : LeafNodeView) (v : ℕ)
    → get_next_leaf_index (linked l prev_sibling_offset v) ≡ get_next_leaf_index l
next-linked_prev l v =
    get_next_leaf_index_lem (linked l prev_sibling_offset v)
    ∙ ap (λ w. done (link_of w))
        (u32_at-linked_apart l prev_sibling_offset v next_sibling_offset (inr (omega arith)))
    ∙ sym (get_next_leaf_index_lem l)

pub link_siblings-Linked :
    (s : Split) (v : ℕ)
    → IsSlotted s.left.page_view
    → IsSlotted s.right.page_view
    → ((l : LeafNodeView) → s.orig_right ≡ some l → IsSlotted l.page_view)
    → s.left.page_id.page_index < 2 ^ 32
    → s.right.page_id.page_index < 2 ^ 32
    → v < 2 ^ 32
    → Returns (link_siblings s (link_of v)) (λ s'. Linked s s' v)
unfolding link_siblings
link_siblings-Linked s v left_ok right_ok orig_ok left_word right_word v_word =
    let left_index = s.left.page_id.page_index in
    let right_index = s.right.page_id.page_index in
    let word = word_of (link_of v) in
    let r1 = linked s.right next_sibling_offset word in
    let k1 = linked-Relinks s.right next_sibling_offset word right_ok (omega arith) in
    let k2 = linked-Relinks r1 prev_sibling_offset left_index k1.well_formed (omega arith) in
    let (o, e, f) = set_prev_of-Follows s.orig_right right_index orig_ok right_word in
    (
      record {
        left = linked s.left next_sibling_offset right_index;
        right = linked r1 prev_sibling_offset left_index;
        orig_right = o;
      },
      rw
          (
            set_next_leaf_index_lem s.left (some right_index),
            set_next_leaf_index_lem s.right (link_of v),
            set_prev_leaf_index_lem r1 (some left_index),
            e,
          )
          refl,
      record {
        left_same = linked-Relinks s.left next_sibling_offset right_index left_ok (omega arith);
        right_same = record {
          same_page = refl;
          well_formed = k2.well_formed;
          same_count = k2.same_count ∙ k1.same_count;
          same_records = λ i. k2.same_records i ∙ k1.same_records i;
        };
        left_next = next-linked_self s.left next_sibling_offset right_index refl right_word;
        left_prev = prev-linked_next s.left right_index;
        right_next =
            next-linked_prev r1 left_index
            ∙ next-linked_self s.right next_sibling_offset word refl (rw (word_of-link_of v) v_word)
            ∙ ap (λ w. done (link_of w)) (word_of-link_of v);
        right_prev = prev-linked_self r1 prev_sibling_offset left_index refl left_word;
        follows = f;
      },
    )
