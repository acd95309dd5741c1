-- ===== src/SortedList.antt =====
-- threads/list.h: the list template that the kernel keeps its queues in. A List is the chain of the
-- elements from `first` to `last`; an empty chain stands for the two NULL pointers. Keys are numbers of
-- ticks, so they are not negative.
pub mod Order
use nach_osx.Prelude.{ltb, if◌then◌else◌, ℕ, Bool, true, false, Option, none, some, List, [], ◌∷◌}

pub record ListElement (Item : Type 0) : Type 0 where
  pub key : ℕ
  pub item : Item

-- The constructor of ListElement; `next` is set when the element is linked.
abbrev pub new_element : {Item : Type 0} → Item → ℕ → ListElement Item
new_element an_item sort_key = record { key = sort_key; item = an_item }

module _ {Item : Type 0} where
  unfoldable pub is_empty : List (ListElement Item) → Bool
  is_empty [] = true
  is_empty (e ∷ es) = false

  -- last->next = element
  unfoldable pub link_last : List (ListElement Item) → ListElement Item → List (ListElement Item)
  link_last [] element = element ∷ []
  link_last (e ∷ es) element = e ∷ link_last es element

  unfoldable pub append : List (ListElement Item) → Item → List (ListElement Item)
  unfolding is_empty link_last
  append list item =
      let element = new_element item 0 in
      if is_empty list then element ∷ [] else link_last list element

  pub prepend : List (ListElement Item) → Item → List (ListElement Item)
  unfolding is_empty
  prepend list item =
      let element = new_element item 0 in if is_empty list then element ∷ [] else element ∷ list

  -- The loop of SortedInsert: `ptr` is the first element of the chain.
  unfoldable pub insert_behind :
      ListElement Item → List (ListElement Item) → ListElement Item → List (ListElement Item)
  insert_behind ptr [] element = ptr ∷ element ∷ []
  insert_behind ptr (next ∷ rest) element =
      let further = insert_behind next rest element in
      if ltb element.key next.key then ptr ∷ element ∷ next ∷ rest else ptr ∷ further

  unfoldable pub sorted_insert : List (ListElement Item) → Item → ℕ → List (ListElement Item)
  unfolding insert_behind
  sorted_insert [] item sort_key = new_element item sort_key ∷ []
  sorted_insert (first ∷ rest) item sort_key =
      let element = new_element item sort_key in
      if ltb sort_key first.key then element ∷ first ∷ rest else insert_behind first rest element

  -- The element taken off the front, with its key, and the rest; `none` stands for Item().
  unfoldable pub sorted_remove :
      List (ListElement Item) → Option (ListElement Item) × List (ListElement Item)
  sorted_remove [] = (none, [])
  sorted_remove (first ∷ rest) = (some first, rest)

  abbrev pub item_of : Option (ListElement Item) → Option Item
  item_of none = none
  item_of (some e) = some e.item

  unfoldable pub remove : List (ListElement Item) → Option Item × List (ListElement Item)
  unfolding sorted_remove
  remove list = (item_of (sorted_remove list).0, (sorted_remove list).1)

  -- The calls that Apply makes, in their order.
  pub apply : {B : Type 0} → (Item → B) → List (ListElement Item) → List B
  apply func [] = []
  apply func (e ∷ es) = func e.item ∷ apply func es
