-- ===== src/Api/Bodies/InRange.antt =====
-- The arguments of the writer calls are within the machine's ranges.
use cllm.Common.{ℕ, arith, ◌≡◌, refl, ap, suc, length, List, [], ◌∷◌, All}
use cllm.Json.Writer.Arrays.{IsInt, IsFloat}
use cllm.Api.Answer.{Context}
use cllm.Api.Answer.Safe.{InRange}
use cllm.Api.Requests.{ChatMessage}
use cllm.Api.Bodies.{
  completion_calls, chat_calls, embedding_calls, models_calls, count_messages, bytes_of,
}

pub completion_calls-InRange :
    (c : Context) (id text : List ℕ) (n : ℕ) → IsInt n → All InRange (completion_calls c id text n)
completion_calls-InRange c id text n h = (
  tt,
  (
    omega arith,
    (
      omega arith,
      (
        omega arith,
        (
          omega arith,
          (
            omega arith,
            (
              tt,
              (
                tt,
                (
                  omega arith,
                  (
                    (omega arith, omega arith),
                    (
                      omega arith,
                      (
                        omega arith,
                        (
                          tt,
                          (
                            tt,
                            (
                              omega arith,
                              (
                                tt,
                                (
                                  (omega arith, h),
                                  (
                                    (omega arith, omega arith),
                                    ((omega arith, omega arith), (tt, (tt, tt))),
                                  ),
                                ),
                              ),
                            ),
                          ),
                        ),
                      ),
                    ),
                  ),
                ),
              ),
            ),
          ),
        ),
      ),
    ),
  ),
)

pub chat_calls-InRange :
    (c : Context) (id text : List ℕ) (m n : ℕ)
    → IsInt m
    → IsInt n
    → All InRange (chat_calls c id text m n)
chat_calls-InRange c id text m n h k = (
  tt,
  (
    omega arith,
    (
      omega arith,
      (
        omega arith,
        (
          omega arith,
          (
            omega arith,
            (
              tt,
              (
                tt,
                (
                  (omega arith, omega arith),
                  (
                    omega arith,
                    (
                      tt,
                      (
                        omega arith,
                        (
                          omega arith,
                          (
                            tt,
                            (
                              omega arith,
                              (
                                tt,
                                (
                                  tt,
                                  (
                                    omega arith,
                                    (
                                      tt,
                                      (
                                        (omega arith, h),
                                        (
                                          (omega arith, k),
                                          ((omega arith, omega arith), (tt, (tt, tt))),
                                        ),
                                      ),
                                    ),
                                  ),
                                ),
                              ),
                            ),
                          ),
                        ),
                      ),
                    ),
                  ),
                ),
              ),
            ),
          ),
        ),
      ),
    ),
  ),
)

pub embedding_calls-InRange :
    (l : List (ℕ × ℕ)) (n : ℕ) → All IsFloat l → IsInt n → All InRange (embedding_calls l n)
embedding_calls-InRange l n h k = (
  tt,
  (
    omega arith,
    (
      omega arith,
      (
        tt,
        (
          tt,
          (
            omega arith,
            (
              (omega arith, omega arith),
              (
                omega arith,
                (
                  h,
                  (
                    tt,
                    (
                      tt,
                      (
                        omega arith,
                        (omega arith, (tt, ((omega arith, k), ((omega arith, k), (tt, (tt, tt)))))),
                      ),
                    ),
                  ),
                ),
              ),
            ),
          ),
        ),
      ),
    ),
  ),
)

pub models_calls-InRange : (c : Context) → All InRange (models_calls c)
models_calls-InRange c = (
  tt,
  (
    omega arith,
    (
      omega arith,
      (tt, (tt, (omega arith, (omega arith, (omega arith, (omega arith, (tt, (tt, (tt, tt))))))))),
    ),
  ),
)

pub bytes_of-IsInt : (l : List ℕ) → All IsInt (bytes_of l)
unfolding bytes_of
bytes_of-IsInt [] = tt
bytes_of-IsInt (c ∷ l) = (omega arith, bytes_of-IsInt l)

pub count_messages-IsInt : (l : List ChatMessage) → IsInt (count_messages l)
unfolding count_messages
count_messages-IsInt [] = omega arith
count_messages-IsInt (m ∷ l) = omega arith

pub length-bytes_of : (l : List ℕ) → length (bytes_of l) ≡ length l
unfolding bytes_of
length-bytes_of [] = refl
length-bytes_of (c ∷ l) = ap suc (length-bytes_of l)
