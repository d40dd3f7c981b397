-- ===== src/Transaction/Writes.antt =====
-- What the decoder of a transaction accepts is exactly what the encoder writes.
use bitrst.Base.{
  ℕ, zero, suc, ◌≤◌, ◌≡◌, refl, sym, ap, ◌∙◌, List, [], ◌∷◌, ◌++◌, length, All, append_assoc,
  append-nil,
}
use bitrst.Wire.Reader.{Decoder}
use bitrst.Wire.Writes.{
  Writes, Writes-pure, Writes-bind, Writes-read_bytes, Writes-read_u32, Writes-read_u64,
  Writes-read_i32, Writes-read_limited_len,
}
use bitrst.Transaction.Types.{TxInput, TxOutput, Transaction, IsTxInput, IsTxOutput, IsTransaction}
use bitrst.Transaction.Encode.{encode, encode_input, encode_output, concat_by}
use bitrst.Transaction.Decode.{decode_from, decode_input, decode_output, decode_many}
use bitrst.Transaction.Reads.{WithinLimits}
use bitrst.Limits.{max_script_size, max_transaction_inputs, max_transaction_outputs}

-- A well-typed item within the script limit.
abbrev pub GoodInput : TxInput → Type 0
GoodInput input = IsTxInput input × (length input.script_sig ≤ max_script_size)

abbrev pub GoodOutput : TxOutput → Type 0
GoodOutput output = IsTxOutput output × (length output.script_pubkey ≤ max_script_size)

abbrev InputBytes : TxInput → List ℕ → Type 0
InputBytes input bs = (bs ≡ encode_input input) × GoodInput input

abbrev OutputBytes : TxOutput → List ℕ → Type 0
OutputBytes output bs = (bs ≡ encode_output output) × GoodOutput output

Writes-decode_input : Writes decode_input InputBytes
unfolding decode_input encode_input
Writes-decode_input = Writes-bind _ _ (Writes-read_bytes 32 _) (λ previous bs₁ _ (e₁, h₁).
    Writes-bind _ _ (Writes-read_u32 _) (λ index bs₂ _ (e₂, h₂).
      Writes-bind _ _ (Writes-read_limited_len _ max_script_size) (λ len bs₃ _ (e₃, _, small).
        Writes-bind _ _ (Writes-read_bytes len _) (λ script bs₄ _ (e₄, h₄).
          Writes-bind _ _ (Writes-read_u32 _) (λ sequence bs₅ _ (e₅, h₅).
            Writes-pure
              (record {
                previous_output = previous;
                index = index;
                script_sig = script;
                sequence = sequence;
              })
              (
                rw (append-nil bs₅, e₁, e₂, e₃, e₄, e₅, h₄.size) refl,
                (
                  record { previous_output = h₁; index = h₂; script_sig = h₄.bytes; sequence = h₅ },
                  rw (h₄.size) small,
                ),
              ))))))

Writes-decode_output : Writes decode_output OutputBytes
unfolding decode_output encode_output
Writes-decode_output = Writes-bind _ _ (Writes-read_u64 _) (λ value bs₁ _ (e₁, h₁).
    Writes-bind _ _ (Writes-read_limited_len _ max_script_size) (λ len bs₂ _ (e₂, _, small).
      Writes-bind _ _ (Writes-read_bytes len _) (λ script bs₃ _ (e₃, h₃).
        Writes-pure (record { value = value; script_pubkey = script })
          (
            rw (append-nil bs₃, e₁, e₂, e₃, h₃.size) refl,
            (record { value = h₁; script_pubkey = h₃.bytes }, rw (h₃.size) small),
          ))))

-- A counted loop adds `count` good items, and took their bytes in order.
abbrev pub Many : {A : Type 0} → (A → List ℕ) → (A → Type 0) → ℕ → List A → List A → List ℕ → Type 0
Many {A} f Good count before items bs =
    (xs : List A) × (items ≡ before ++ xs)
    × (length xs ≡ count)
    × (bs ≡ concat_by f xs)
    × All Good xs

pub Writes-decode_many :
    {A : Type 0} (item : Decoder A) (f : A → List ℕ) (Good : A → Type 0)
    → Writes item (λ a bs. (bs ≡ f a) × Good a)
    → (count : ℕ) (before : List A)
    → Writes (decode_many item count before) (Many f Good count before)
unfolding decode_many
Writes-decode_many item f Good h zero before =
    Writes-pure before ([], sym (append-nil before), refl, refl, tt)
Writes-decode_many item f Good h (suc count) before = Writes-bind item _ h (λ x bs _ (e, good).
    record {
      at = λ r items r' all run.
          let (cs, split, bytes, rest, (xs, eq, size, enc, goods)) =
            (Writes-decode_many item f Good h count (before ++ (x ∷ []))).at r items r' all run in
          (
            cs,
            split,
            bytes,
            rest,
            (x ∷ xs, eq ∙ append_assoc before (x ∷ []) xs, ap suc size, rw (e, enc), (good, goods)),
          );
    })

All-inputs :
    (inputs : List TxInput)
    → All GoodInput inputs
    → All IsTxInput inputs × All (λ input. length input.script_sig ≤ max_script_size) inputs
All-inputs [] h = (tt, tt)
All-inputs (input ∷ inputs) h =
    let (typed, small) = All-inputs inputs h.1 in ((h.0.0, typed), (h.0.1, small))

All-outputs :
    (outputs : List TxOutput)
    → All GoodOutput outputs
    → All IsTxOutput outputs × All (λ output. length output.script_pubkey ≤ max_script_size) outputs
All-outputs [] h = (tt, tt)
All-outputs (output ∷ outputs) h =
    let (typed, small) = All-outputs outputs h.1 in ((h.0.0, typed), (h.0.1, small))

abbrev pub TransactionBytes : Transaction → List ℕ → Type 0
TransactionBytes tx bs = (bs ≡ encode tx) × IsTransaction tx × WithinLimits tx

pub Writes-decode_from : Writes decode_from TransactionBytes
unfolding decode_from encode
Writes-decode_from = Writes-bind _ _ (Writes-read_i32 _) (λ version bs₁ _ (e₁, h₁).
    Writes-bind _ _ (Writes-read_limited_len _ max_transaction_inputs)
      (λ input_count bs₂ _ (e₂, _, small₂).
        Writes-bind _ _
          (Writes-decode_many decode_input encode_input GoodInput Writes-decode_input input_count
            [])
          (λ inputs bs₃ _ (is, same₃, size₃, e₃, h₃).
            Writes-bind _ _ (Writes-read_limited_len _ max_transaction_outputs)
              (λ output_count bs₄ _ (e₄, _, small₄).
                Writes-bind _ _
                  (Writes-decode_many decode_output encode_output GoodOutput Writes-decode_output
                    output_count [])
                  (λ outputs bs₅ _ (os, same₅, size₅, e₅, h₅).
                    Writes-bind _ _ (Writes-read_u32 _) (λ lock_time bs₆ _ (e₆, h₆).
                      let (typed₃, short₃) = All-inputs is h₃ in
                      let (typed₅, short₅) = All-outputs os h₅ in
                      Writes-pure
                        (record {
                          version = version;
                          inputs = inputs;
                          outputs = outputs;
                          lock_time = lock_time;
                        })
                        (
                          rw (append-nil bs₆, e₁, e₂, e₃, e₄, e₅, e₆, same₃, same₅, size₃, size₅)
                              refl,
                          rw (same₃, same₅)
                              (record {
                                version = h₁;
                                inputs = typed₃;
                                outputs = typed₅;
                                lock_time = h₆;
                              }),
                          rw (same₃, same₅)
                              (record {
                                inputs = rw size₃ small₂;
                                outputs = rw size₅ small₄;
                                script_sigs = short₃;
                                script_pubkeys = short₅;
                              }),
                        )))))))
