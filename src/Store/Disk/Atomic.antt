-- ===== src/Store/Disk/Atomic.antt =====
-- A write of src/store/fs.rs is atomic.
use qumulus.Base.{
  ◌≡◌, ◌≢◌, refl, ◌∙◌, ap, some, [], ◌∷◌, if◌then◌else◌, length, length-append, arith,
}
use qumulus.Store.Disk.{
  Disk, lookup, put, remove, tmp_path, Outcome, create_fails, write_fails, rename_fails, succeeds,
  blocking_write,
}
use qumulus.Text.{Text, text}
use qumulus.Text.Order.{text_eq_refl, eq_of_text_eq}

pub lookup-put_self : (f bytes : Text) (disk : Disk) → lookup f (put f bytes disk) ≡ some bytes
unfolding lookup put
lookup-put_self f bytes [] = ground (arith, text_eq_refl f)
lookup-put_self f bytes ((g, old) ∷ disk) =
    ground (arith, text_eq_refl f, lookup-put_self f bytes disk)

pub lookup-put_ne :
    (g f bytes : Text) (disk : Disk) → g ≢ f → lookup g (put f bytes disk) ≡ lookup g disk
unfolding lookup put
lookup-put_ne g f bytes [] h = ground (arith, eq_of_text_eq g f)
lookup-put_ne g f bytes ((k, old) ∷ disk) h =
    ground (
      arith,
      eq_of_text_eq g k,
      eq_of_text_eq f k,
      eq_of_text_eq g f,
      lookup-put_ne g f bytes disk h,
    )

lookup-remove_ne : (g f : Text) (disk : Disk) → g ≢ f → lookup g (remove f disk) ≡ lookup g disk
unfolding lookup remove
lookup-remove_ne g f [] h = refl
lookup-remove_ne g f ((k, old) ∷ disk) h =
    ground (arith, eq_of_text_eq g k, eq_of_text_eq f k, lookup-remove_ne g f disk h)

tmp_path_ne : (f : Text) → f ≢ tmp_path f
tmp_path_ne f h =
    let same : length f ≡ length (tmp_path f) = ap length h in
    absurd (omega (arith, length-append f (text ".tmp")))

-- Wherever a write fails, the file keeps the bytes that it had, and it gets all of the new ones
-- exactly when the write reports success. Every file but this and its temporary one is untouched.
pub blocking_write_atomic :
    (o : Outcome) (f g bytes : Text) (disk : Disk)
    → g ≢ f
    → g ≢ tmp_path f
    → let (written, disk') = blocking_write o f bytes disk in
      (lookup f disk' ≡ (if written then some bytes else lookup f disk))
      × (lookup g disk' ≡ lookup g disk)
unfolding blocking_write
blocking_write_atomic create_fails f g bytes disk h k = (refl, refl)
blocking_write_atomic (write_fails n) f g bytes disk h k =
    (lookup-put_ne f (tmp_path f) _ disk (tmp_path_ne f), lookup-put_ne g (tmp_path f) _ disk k)
blocking_write_atomic rename_fails f g bytes disk h k =
    (lookup-put_ne f (tmp_path f) _ disk (tmp_path_ne f), lookup-put_ne g (tmp_path f) _ disk k)
blocking_write_atomic succeeds f g bytes disk h k = (
  lookup-put_self f bytes _,
  lookup-put_ne g f bytes _ h
      ∙ lookup-remove_ne g (tmp_path f) _ k
      ∙ lookup-put_ne g (tmp_path f) bytes disk k,
)
