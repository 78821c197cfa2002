-- ===== src/Partition/Modes.antt =====
-- The modes that the environment selects, and the geometric producer rule.
use Prim.Native.String.{String}
use dmg_md.Base.{
  Bool, true, false, not, ◌&&◌, ◌||◌, Option, none, some, Result, ok, err, ◌>>◌, throw_if,
  if◌then◌else◌,
}
use dmg_md.Base.Floats.{Floats, min_d}
use dmg_md.Base.Int.{pos}
use dmg_md.RunFile.{Bytes}
use dmg_md.RunFile.Text.{codes, is_word}

pub data DomainPartitionMode : Type 0 where
  off serial verify : DomainPartitionMode

pub data DomainOverlapMode : Type 0 where
  overlap_off wait poll : DomainOverlapMode

pub data DomainSchedule : Type 0 where
  split producer producer_compact producer_geometry : DomainSchedule

-- The name of the environment variable in the message.
pub data ModeError : Type 0 where
  bad_schedule bad_overlap bad_partition bad_radius : ModeError

unfoldable pub producer_schedule : DomainSchedule → Bool
producer_schedule split = false
producer_schedule _ = true

unfoldable pub compact_schedule : DomainSchedule → Bool
compact_schedule producer_compact = true
compact_schedule producer_geometry = true
compact_schedule _ = false

-- `value ? value : otherwise`
abbrev or_text : Option Bytes → String → Bytes
or_text none otherwise = codes otherwise
or_text (some text) otherwise = text

-- The argument is the value of the environment variable, if it is set.
unfoldable pub domain_schedule : Option Bytes → Result ModeError DomainSchedule
domain_schedule value =
    let mode = or_text value "split" in
    if is_word mode "split"
    then ok split
    else if is_word mode "producer"
    then ok producer
    else if is_word mode "producer-compact"
    then ok producer_compact
    else if is_word mode "producer-geometry"
    then ok producer_geometry
    else err bad_schedule

unfoldable pub schedule_name : DomainSchedule → String
schedule_name split = "split"
schedule_name producer = "producer"
schedule_name producer_compact = "producer-compact"
schedule_name producer_geometry = "producer-geometry"

unfoldable pub domain_overlap_mode : Option Bytes → Result ModeError DomainOverlapMode
domain_overlap_mode value =
    let mode = or_text value "off" in
    if is_word mode "off"
    then ok overlap_off
    else if is_word mode "wait"
    then ok wait
    else if is_word mode "poll"
    then ok poll
    else err bad_overlap

unfoldable pub overlap_name : DomainOverlapMode → String
overlap_name overlap_off = "off"
overlap_name wait = "wait"
overlap_name poll = "poll"

unfoldable pub domain_partition_mode : Option Bytes → Result ModeError DomainPartitionMode
domain_partition_mode value =
    let mode = or_text value "off" in
    if is_word mode "off"
    then ok off
    else if is_word mode "serial"
    then ok serial
    else if is_word mode "verify"
    then ok verify
    else err bad_partition

module _ (F : Floats) (next_up : F.Double → F.Double) where
  open F use {Double, add, sub, mul, div, ltd, is_finite, of_int}

  -- 32 times the epsilon of `float`, a power of two.
  abbrev inset_error : Double
  inset_error = div (of_int (pos 32)) (of_int (pos 8388608))

  -- `next_up` is `std::nextafter` towards infinity.
  unfoldable pub producer_inset : Double → Double → Result ModeError Double
  producer_inset build_radius axis_length = do
    throw_if
        (not (ltd (of_int (pos 0)) build_radius)
          || not (ltd (of_int (pos 0)) axis_length)
          || not (is_finite build_radius)
          || not (is_finite axis_length))
        bad_radius
    ok (
        next_up
          (add (mul build_radius (add (of_int (pos 1)) inset_error)) (mul inset_error axis_length)))

  unfoldable pub geometric_early : Double → Double → Double → Double → Bool
  geometric_early q lo hi inset = ltd lo q && ltd q hi && ltd inset (min_d F (sub q lo) (sub hi q))
