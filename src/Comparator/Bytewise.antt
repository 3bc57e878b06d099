-- ===== src/Comparator/Bytewise.antt =====
-- The default comparator keeps the promises of the interface.
use distributed_kvstorage.Common.{◌∙◌, ap, some}
use distributed_kvstorage.Slice.Order.{compare-lex, compare_refl, compare-flip, compare_trans}
use distributed_kvstorage.Comparator.{IsComparator, bytewise_comparator}
use distributed_kvstorage.Comparator.Separator.{
  separator, le-separator, separator-lt, separator_outside, separator-IsByte,
  find_shortest_separator-separator,
}
use distributed_kvstorage.Comparator.Successor.{
  successor, le-successor, successor-IsByte, find_short_successor-successor,
}

-- The default comparator keeps the interface's promises: `compare` is a total preorder, its assertion
-- never fails, the separator lies between `start` and `limit`, and the successor at or above the key.
pub bytewise_comparator-IsComparator : IsComparator bytewise_comparator
bytewise_comparator-IsComparator = record {
  compare_refl = compare_refl;
  compare-flip = compare-flip;
  compare_trans = compare_trans;
  separator_between = λ start limit hs hl lt. (
    separator start limit,
    find_shortest_separator-separator start limit,
    separator-IsByte start limit hs,
    rw (compare-lex start (separator start limit)) (le-separator start limit),
    rw (compare-lex (separator start limit) limit)
        (separator-lt start limit (rw (compare-lex start limit) at lt)),
  );
  separator_outside = λ start limit hs hl ge.
      find_shortest_separator-separator start limit
      ∙ ap some (separator_outside start limit (rw (compare-lex start limit) at ge));
  successor_above = λ key h. (
    successor key,
    find_short_successor-successor key h,
    successor-IsByte key h,
    rw (compare-lex key (successor key)) (le-successor key),
  );
}
