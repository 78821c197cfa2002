-- ===== src/Partition/Names.antt =====
-- The names of the modes in the environment.
use Prim.Native.String.{String}
use dmg_md.Base.{ap, ◌∙◌, ◌↔◌, ◌≡◌, refl, some, ok, arith, true}
use dmg_md.RunFile.{Bytes}
use dmg_md.RunFile.Text.{codes, is_word, same_bytes, same_bytes-eq}
use dmg_md.Partition.Modes.{
  DomainSchedule, domain_schedule, schedule_name, DomainOverlapMode, domain_overlap_mode,
  overlap_name, split, overlap_off, producer, producer_compact, producer_geometry, wait, poll,
}

is_name :
    (m : DomainSchedule) (text : Bytes)
    → domain_schedule (some text) ≡ ok m
    → is_word text (schedule_name m) ≡ true
unfolding domain_schedule schedule_name
is_name split text h = ground arith
is_name producer text h = ground arith
is_name producer_compact text h = ground arith
is_name producer_geometry text h = ground arith

reads_name : (m : DomainSchedule) → domain_schedule (some (codes (schedule_name m))) ≡ ok m
unfolding domain_schedule schedule_name is_word same_bytes
reads_name split = refl
reads_name producer = refl
reads_name producer_compact = refl
reads_name producer_geometry = refl

is_overlap :
    (m : DomainOverlapMode) (text : Bytes)
    → domain_overlap_mode (some text) ≡ ok m
    → is_word text (overlap_name m) ≡ true
unfolding domain_overlap_mode overlap_name
is_overlap overlap_off text h = ground arith
is_overlap wait text h = ground arith
is_overlap poll text h = ground arith

reads_overlap : (m : DomainOverlapMode) → domain_overlap_mode (some (codes (overlap_name m))) ≡ ok m
unfolding domain_overlap_mode overlap_name is_word same_bytes
reads_overlap overlap_off = refl
reads_overlap wait = refl
reads_overlap poll = refl

word_eq : (text : Bytes) (word : String) → is_word text word ≡ true → text ≡ codes word
unfolding is_word
word_eq text word h = same_bytes-eq text (codes word) h

-- The name of a schedule is read as that schedule, and no other text is; so it is with the modes of
-- the overlap.
pub domain_schedule-schedule_name :
    (m : DomainSchedule) (o : DomainOverlapMode) (text : Bytes)
    → ((domain_schedule (some text) ≡ ok m) ↔ (text ≡ codes (schedule_name m)))
      × ((domain_overlap_mode (some text) ≡ ok o) ↔ (text ≡ codes (overlap_name o)))
domain_schedule-schedule_name m o text = (
  (
    (λ h. word_eq text (schedule_name m) (is_name m text h)),
    (λ e. ap (λ t. domain_schedule (some t)) e ∙ reads_name m),
  ),
  (
    (λ h. word_eq text (overlap_name o) (is_overlap o text h)),
    (λ e. ap (λ t. domain_overlap_mode (some t)) e ∙ reads_overlap o),
  ),
)
